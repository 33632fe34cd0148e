-- ===== src/Std/Int.antt =====
-- Signed arithmetic of Rust, for integers within their range: `+`, `-`, `*`, `/`, `%` and the
-- padded format.
use dht_spider.Prelude.{
  ℕ, zero, suc, ◌+◌, ◌-◌, ◌*◌, ◌/◌, ◌%◌, Bool, true, ◌++◌, ◌∷◌, Bytes, length, replicate, ltb, ◌==◌,
  if◌then◌else◌,
}
use dht_spider.Std.Decimal.{ℤ, pos, negsuc, decimal}

abbrev pub minus : ℕ → ℤ
minus zero = pos 0
minus (suc n) = negsuc n

abbrev pub diff : ℕ → ℕ → ℤ
diff a b = if ltb a b then minus (b - a) else pos (a - b)

infixl 6 ◌+ℤ◌ ◌-ℤ◌
abbrev pub ◌+ℤ◌ : ℤ → ℤ → ℤ
pos a +ℤ pos b = pos (a + b)
pos a +ℤ negsuc b = diff a (suc b)
negsuc a +ℤ pos b = diff b (suc a)
negsuc a +ℤ negsuc b = negsuc (suc (a + b))

abbrev pub negate : ℤ → ℤ
negate (pos n) = minus n
negate (negsuc n) = pos (suc n)

abbrev pub ◌-ℤ◌ : ℤ → ℤ → ℤ
x -ℤ y = x +ℤ negate y

abbrev pub times : ℤ → ℕ → ℤ
times (pos a) n = pos (a * n)
times (negsuc a) n = minus (suc a * n)

-- Rust's `/` and `%` by a positive number round towards zero.
abbrev pub quot : ℤ → ℕ → ℤ
quot (pos a) n = pos (a / n)
quot (negsuc a) n = minus (suc a / n)

abbrev pub divides : ℕ → ℤ → Bool
divides n (pos a) = a % n == 0
divides n (negsuc a) = suc a % n == 0

abbrev pub below : ℤ → ℕ → Bool
below (pos a) n = ltb a n
below (negsuc a) n = true

-- `{:0w}`: zeros after the sign, up to the width.
abbrev pub padded : ℕ → ℤ → Bytes
padded w (pos n) = let s = decimal n in replicate (w - length s) b'0' ++ s
padded w (negsuc n) = let s = decimal (suc n) in b'-' ∷ replicate (w - 1 - length s) b'0' ++ s
