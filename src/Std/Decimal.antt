-- ===== src/Std/Decimal.antt =====
-- Decimal numbers: `Display` and `parse` of `usize` (64 bits), `u16` and `i64`.
use mathlib.Core.Option
use native.Mathlib.Nat.{pow-suc}
use dht_spider.Prelude.{
  ℕ, zero, suc, ◌+◌, ◌-◌, ◌*◌, ◌/◌, ◌%◌, ◌^◌, ◌<◌, ◌≤◌, ◌≡◌, refl, ◌∙◌, ltb→lt, lt→ltb, ltb-false,
  Bool-cases, inl, inr, Bool, true, false, ◌&&◌, [], ◌∷◌, ◌++◌, append_assoc, append-nil, Option,
  none, some, arith, Bytes, ltb, leb, ◌==◌, if◌then◌else◌, All, All-append, length, length-append,
}

-- `i64` as an integer: `negsuc n` is -(n + 1).
pub data ℤ : Type 0 where
  pos : ℕ → ℤ
  negsuc : ℕ → ℤ

-- `as usize` of an `i64`
abbrev pub as_usize : ℤ → ℕ
as_usize (pos n) = n % 2 ^ 64
as_usize (negsuc n) = 2 ^ 64 - 1 - n

-- The digits of a number below 10 ^ fuel.
unfoldable pub digits : ℕ → ℕ → Bytes
digits zero n = []
digits (suc fuel) n =
    let front = digits fuel (n / 10) in
    if ltb n 10 then (48 + n) ∷ [] else front ++ (48 + n % 10) ∷ []

-- `Display` of an unsigned number of at most 64 bits, which has at most 20 digits.
unfoldable pub decimal : ℕ → Bytes
unfolding digits
decimal n = digits 20 n

unfoldable pub decimal_i64 : ℤ → Bytes
unfolding decimal
decimal_i64 (pos n) = decimal n
decimal_i64 (negsuc n) = b'-' ∷ decimal (suc n)

abbrev pub is_digit : ℕ → Bool
is_digit c = leb b'0' c && leb c b'9'

-- The loop of `from_str_radix`: `none` at a byte that is no digit or a value above the limit.
unfoldable pub scan : ℕ → ℕ → Bytes → Option ℕ
scan limit acc [] = some acc
scan limit acc (c ∷ s) =
    let acc' = acc * 10 + (c - 48) in
    let rest = scan limit acc' s in
    if is_digit c then (if ltb limit acc' then none else rest) else none

unfoldable pub scan_some : ℕ → Bytes → Option ℕ
unfolding scan
scan_some limit [] = none
scan_some limit (c ∷ s) = scan limit 0 (c ∷ s)

-- `parse::<usize>`: a leading `+` is allowed.
unfoldable pub parse_usize : Bytes → Option ℕ
unfolding scan_some
parse_usize [] = none
parse_usize (c ∷ s) = if c == b'+' then scan_some (2 ^ 64 - 1) s else scan_some (2 ^ 64 - 1) (c ∷ s)

unfoldable pub to_i64 : ℕ → ℤ
to_i64 zero = pos 0
to_i64 (suc n) = negsuc n

-- `parse::<i64>`: a leading `+` or `-` is allowed.
unfoldable pub parse_i64 : Bytes → Option ℤ
unfolding scan_some to_i64
parse_i64 [] = none
parse_i64 (c ∷ s) =
    if c == b'-'
    then Option.map to_i64 (scan_some (2 ^ 63) s)
    else if c == b'+'
    then Option.map pos (scan_some (2 ^ 63 - 1) s)
    else Option.map pos (scan_some (2 ^ 63 - 1) (c ∷ s))

abbrev pub IsDigit : ℕ → Type 0
IsDigit c = (48 ≤ c) × (c ≤ 57)

All-digits : (f n : ℕ) → All IsDigit (digits f n)
unfolding digits
All-digits zero n = tt
All-digits (suc f) n = elim (Bool-cases (ltb n 10)) [
  | inl small ↦ rw small (omega (arith, ltb→lt n 10 small))
  | inr large ↦
      rw large (All-append IsDigit (digits f (n / 10)) _ (All-digits f (n / 10)) (omega arith))
]

scan-digit :
    (limit acc d n : ℕ) (s : Bytes)
    → d < 10
    → acc * 10 + d ≡ n
    → n ≤ limit
    → scan limit acc ((48 + d) ∷ s) ≡ scan limit n s
unfolding scan
scan-digit limit acc d n s h e' k =
    let e : 48 + d - 48 ≡ d = omega arith in
    let f : leb 48 (48 + d) ≡ true = ground arith in
    let g : leb (48 + d) 57 ≡ true = ground arith in rw (e, f, g, e', ltb-false limit n k) refl

scan-digits :
    (limit f n : ℕ) (s : Bytes)
    → 0 < f
    → n < 10 ^ f
    → n ≤ limit
    → scan limit 0 (digits f n ++ s) ≡ scan limit n s
unfolding digits
scan-digits limit zero n s p h k = absurd (omega arith)
scan-digits limit (suc zero) n s p h k =
    let small : ltb n 10 ≡ true = lt→ltb n 10 (omega arith) in
    rw small (scan-digit limit 0 n n s (omega arith) (omega arith) k)
scan-digits limit (suc (suc f)) n s p h k = elim (Bool-cases (ltb n 10)) [
  | inl small ↦ rw small (scan-digit limit 0 n n s (ltb→lt n 10 small) (omega arith) k)
  | inr large ↦
      rw (large, append_assoc)
        (scan-digits limit (suc f) (n / 10) ((48 + n % 10) ∷ s) (omega arith)
            (omega (arith, pow-suc 10 (suc f))) (omega arith)
          ∙ scan-digit limit (n / 10) (n % 10) n s (omega arith) (omega arith) k)
]

digits-length_pos : (f n : ℕ) → 0 < length (digits (suc f) n)
unfolding digits
digits-length_pos f n = elim (Bool-cases (ltb n 10)) [
  | inl small ↦ rw small (omega arith)
  | inr large ↦ rw large (omega (arith, length-append (digits f (n / 10)) ((48 + n % 10) ∷ [])))
]

first-IsDigit :
    (l : Bytes) → 0 < length l → All IsDigit l → (c : ℕ) × (cs : Bytes) × (l ≡ c ∷ cs) × IsDigit c
first-IsDigit [] h k = absurd (omega arith)
first-IsDigit (c ∷ cs) h k = (c, cs, refl, k.0)

pub All-decimal : (n : ℕ) → All IsDigit (decimal n)
unfolding decimal
All-decimal n = All-digits 20 n

-- The decimal form starts with a digit.
pub decimal_first : (n : ℕ) → (c : ℕ) × (cs : Bytes) × (decimal n ≡ c ∷ cs) × IsDigit c
unfolding decimal
decimal_first n = first-IsDigit (digits 20 n) (digits-length_pos 19 n) (All-digits 20 n)

scan_some-decimal : (limit n : ℕ) → n < 10 ^ 20 → n ≤ limit → scan_some limit (decimal n) ≡ some n
unfolding scan_some
scan_some-decimal limit n h k =
    let (c, cs, e, d) = decimal_first n in
    let whole : scan limit 0 (decimal n ++ []) ≡ some n =
      unfold decimal scan in scan-digits limit 20 n [] (omega arith) h k in
    rw (e, scan_some) (rw (append-nil (decimal n), e) at whole)

-- Reading back a printed number gives the number.
pub parse_usize-decimal : (n : ℕ) → n < 2 ^ 64 → parse_usize (decimal n) ≡ some n
unfolding parse_usize
parse_usize-decimal n h =
    let (c, cs, e, d) = decimal_first n in
    let plain : (c == b'+') ≡ false = ground arith in
    rw (e, parse_usize)
      (rw plain (rw e at (scan_some-decimal (2 ^ 64 - 1) n (omega arith) (omega arith))))

-- The range of an `i64`.
abbrev pub IsI64 : ℤ → Type 0
IsI64 (pos n) = n < 2 ^ 63
IsI64 (negsuc n) = n < 2 ^ 63

pub parse_i64-decimal : (z : ℤ) → IsI64 z → parse_i64 (decimal_i64 z) ≡ some z
unfolding parse_i64 decimal_i64
parse_i64-decimal (pos n) h =
    let (c, cs, e, d) = decimal_first n in
    let minus : (c == b'-') ≡ false = ground arith in
    let plain : (c == b'+') ≡ false = ground arith in
    let read : scan_some (2 ^ 63 - 1) (c ∷ cs) ≡ some n =
      rw e at (scan_some-decimal (2 ^ 63 - 1) n (omega arith) (omega arith)) in
    rw (e, parse_i64) (rw (minus, plain, read))
parse_i64-decimal (negsuc n) h =
    rw (scan_some-decimal (2 ^ 63) (suc n) (omega arith) (omega arith)) refl

scan_bound :
    (limit acc : ℕ) (s : Bytes) (n : ℕ) → acc ≤ limit → scan limit acc s ≡ some n → n ≤ limit
unfolding scan
scan_bound limit acc [] n h e = ground arith
scan_bound limit acc (c ∷ s) n h e = ground (arith, scan_bound limit (acc * 10 + (c - 48)) s n)

scan_some_bound : (limit : ℕ) (s : Bytes) (n : ℕ) → scan_some limit s ≡ some n → n ≤ limit
unfolding scan_some
scan_some_bound limit [] n e = cc
scan_some_bound limit (c ∷ s) n e = scan_bound limit 0 (c ∷ s) n (omega arith) e

-- What is read fits the type.
pub parse_usize_bound : (s : Bytes) (n : ℕ) → parse_usize s ≡ some n → n < 2 ^ 64
unfolding parse_usize
parse_usize_bound [] n e = cc
parse_usize_bound (c ∷ s) n e = elim (Bool-cases (c == b'+')) [
  | inl plus ↦
      let h = scan_some_bound (2 ^ 64 - 1) s n (rw (plus, parse_usize) at e) in omega (arith, h)
  | inr plain ↦
      let h = scan_some_bound (2 ^ 64 - 1) (c ∷ s) n (rw (plain, parse_usize) at e) in
      omega (arith, h)
]

map_some :
    (f : ℕ → ℤ) (o : Option ℕ) (z : ℤ)
    → Option.map f o ≡ some z
    → (n : ℕ) × (o ≡ some n) × (f n ≡ z)
map_some f none z h = cc
map_some f (some n) z h = let h' : some (f n) ≡ some z = h in (n, refl, (cc))

to_i64-IsI64 : (n : ℕ) → n ≤ 2 ^ 63 → IsI64 (to_i64 n)
unfolding to_i64
to_i64-IsI64 zero h = omega arith
to_i64-IsI64 (suc n) h = omega arith

map_pos-IsI64 : (s : Bytes) (z : ℤ) → Option.map pos (scan_some (2 ^ 63 - 1) s) ≡ some z → IsI64 z
map_pos-IsI64 s z e =
    let (n, scanned, value) = map_some pos (scan_some (2 ^ 63 - 1) s) z e in
    rw (← value) (omega (arith, scan_some_bound (2 ^ 63 - 1) s n scanned))

map_to_i64-IsI64 : (s : Bytes) (z : ℤ) → Option.map to_i64 (scan_some (2 ^ 63) s) ≡ some z → IsI64 z
map_to_i64-IsI64 s z e =
    let (n, scanned, value) = map_some to_i64 (scan_some (2 ^ 63) s) z e in
    rw (← value) (to_i64-IsI64 n (scan_some_bound (2 ^ 63) s n scanned))

pub parse_i64_bound : (s : Bytes) (z : ℤ) → parse_i64 s ≡ some z → IsI64 z
unfolding parse_i64
parse_i64_bound [] z e = cc
parse_i64_bound (c ∷ s) z e = elim (Bool-cases (c == b'-')) [
  | inl minus ↦ map_to_i64-IsI64 s z (rw (minus, parse_i64) at e)
  | inr other ↦ elim (Bool-cases (c == b'+')) [
    | inl plus ↦ map_pos-IsI64 s z (rw (other, plus, parse_i64) at e)
    | inr plain ↦ map_pos-IsI64 (c ∷ s) z (rw (other, plain, parse_i64) at e)
  ]
]
