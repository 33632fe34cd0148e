-- ===== src/Std/Bits.antt =====
-- The bit operations at variables: `|` of numbers that share no bit is their sum, and single bits
-- of a byte by a table of all cases.
use Prim.Native.Nat.{digits, bit_or-bitwise}
use native.Mathlib.Nat.{pow-suc, mul_assoc}
use dht_spider.Prelude.{
  ℕ, zero, suc, ◌+◌, ◌-◌, ◌*◌, ◌/◌, ◌%◌, ◌^◌, ◌<◌, ◌≤◌, ◌≡◌, refl, leb, sym, ap, ◌∙◌, max, bit_and,
  bit_or, Bool, true, ◌&&◌, arith, ◌==◌, ==_iff, if◌then◌else◌,
}

abbrev or_digits : ℕ → ℕ → ℕ → ℕ
or_digits b fuel a = digits (λ (low : ℕ). low) max fuel a b

-- Two amounts of fuel that are both enough give the same digits.
spare_fuel : (b a m n : ℕ) → (a ≤ n) × (a ≤ m) → or_digits b m a ≡ or_digits b n a
spare_fuel b (suc a) (suc m) (suc n) (r, l) =
    omega (arith, spare_fuel (b / 2) (suc a / 2) m n (omega arith, omega arith))
spare_fuel b (suc a) zero n (r, l) = absurd (omega arith)
spare_fuel b (suc a) (suc m) zero (r, l) = absurd (omega arith)
spare_fuel b zero zero zero enough = refl
spare_fuel b zero zero (suc n) enough = refl
spare_fuel b zero (suc m) zero enough = refl
spare_fuel b zero (suc m) (suc n) enough = refl

bit_or_step : (a b : ℕ) → bit_or a b ≡ bit_or (a / 2) (b / 2) * 2 + max (a % 2) (b % 2)
bit_or_step (suc a) b =
    let whole = bit_or-bitwise (suc a) b in
    let upper = bit_or-bitwise (suc a / 2) (b / 2) in
    omega
      (arith, spare_fuel (b / 2) (suc a / 2) a (suc a / 2) (omega arith, omega arith), whole, upper)
bit_or_step zero b =
    let whole = bit_or-bitwise 0 b in omega (arith, whole, bit_or-bitwise 0 (b / 2))

bit_or-zero_fuel : (n a : ℕ) → a ≤ n → bit_or a 0 ≡ a
bit_or-zero_fuel n zero h = refl
bit_or-zero_fuel zero (suc a) h = absurd (omega arith)
bit_or-zero_fuel (suc n) (suc a) h =
    omega (arith, bit_or_step (suc a) 0, bit_or-zero_fuel n (suc a / 2) (omega arith))

bit_or_shifted : (k a b : ℕ) → b < 2 ^ k → bit_or (a * 2 ^ k) b ≡ a * 2 ^ k + b
bit_or_shifted zero a b h =
    let e : b ≡ 0 = omega arith in
    rw e (omega (arith, bit_or-zero_fuel (a * 1) (a * 1) (omega arith)))
bit_or_shifted (suc k) a b h =
    let x : ℕ = a * 2 ^ k in
    let e : a * 2 ^ suc k ≡ x * 2 =
      ap (λ (p : ℕ). a * p) (pow-suc 2 k) ∙ sym (mul_assoc a (2 ^ k) 2) in
    let half : x * 2 / 2 ≡ x = omega arith in
    let low : x * 2 % 2 ≡ 0 = omega arith in
    let ih : bit_or x (b / 2) ≡ x + b / 2 =
      bit_or_shifted k a (b / 2) (omega (arith, pow-suc 2 k)) in
    rw (e, bit_or_step (x * 2) b, half, low, ih) (omega arith)

-- `(a << 8) | b` for a byte `b`.
pub bit_or-byte : (a b : ℕ) → b < 256 → bit_or (a * 256) b ≡ a * 256 + b
bit_or-byte a b h = bit_or_shifted 8 a b h

-- A test at every number below a bound, by evaluation.
unfoldable pub holds_below : ℕ → (ℕ → Bool) → Bool
holds_below zero test = true
holds_below (suc bound) test = holds_below bound test && test bound

pub at_holds_below :
    (bound : ℕ) (test : ℕ → Bool) (x : ℕ)
    → holds_below bound test ≡ true
    → x < bound
    → test x ≡ true
unfolding holds_below
at_holds_below (suc bound) test x all small = ground (arith, at_holds_below bound test x)
at_holds_below zero test x all small = absurd (omega arith)

-- Bit `k` of a byte, counted from the low end, the way the program masks and shifts it out.
abbrev pub masked : ℕ → ℕ → ℕ
masked x k = bit_and x (2 ^ k) / 2 ^ k

masked_table : holds_below 256 (λ x. holds_below 8 (λ k. masked x k == x / 2 ^ k % 2)) ≡ true
unfolding holds_below
masked_table = refl

pub masked_lem : (x k : ℕ) → x < 256 → k < 8 → masked x k ≡ x / 2 ^ k % 2
masked_lem x k hx hk =
    (==_iff _ _).0 (at_holds_below 8 _ k (at_holds_below 256 _ x masked_table hx) hk)

set_table :
    holds_below 256 (λ x.
      holds_below 8 (λ k.
        holds_below 8 (λ j. masked (bit_or x (2 ^ k)) j == (if k == j then 1 else masked x j))))
    ≡ true
unfolding holds_below
set_table = refl

pub masked-bit_or :
    (x k j : ℕ)
    → x < 256
    → k < 8
    → j < 8
    → masked (bit_or x (2 ^ k)) j ≡ (if k == j then 1 else masked x j)
masked-bit_or x k j hx hk hj =
    (==_iff _ _).0
      (at_holds_below 8 _ j (at_holds_below 8 _ k (at_holds_below 256 _ x set_table hx) hk) hj)

unset_table :
    holds_below 256 (λ x. holds_below 8 (λ k.
      holds_below 8
        (λ j. masked (bit_and x (255 - 2 ^ k)) j == (if k == j then 0 else masked x j))))
    ≡ true
unfolding holds_below
unset_table = refl

pub masked-bit_and :
    (x k j : ℕ)
    → x < 256
    → k < 8
    → j < 8
    → masked (bit_and x (255 - 2 ^ k)) j ≡ (if k == j then 0 else masked x j)
masked-bit_and x k j hx hk hj =
    (==_iff _ _).0
      (at_holds_below 8 _ j (at_holds_below 8 _ k (at_holds_below 256 _ x unset_table hx) hk) hj)

range_table :
    holds_below 256
      (λ x. holds_below 8 (λ k. leb (bit_or x (2 ^ k)) 255 && leb (bit_and x (255 - 2 ^ k)) 255))
    ≡ true
unfolding holds_below
range_table = refl

pub bit_or-lt :
    (x k : ℕ) → x < 256 → k < 8 → (bit_or x (2 ^ k) < 256) × (bit_and x (255 - 2 ^ k) < 256)
bit_or-lt x k hx hk =
    let e = at_holds_below 8 _ k (at_holds_below 256 _ x range_table hx) hk in
    (ground arith, ground arith)

zero_table : holds_below 8 (λ k. masked 0 k == 0) ≡ true
unfolding holds_below
zero_table = refl

pub masked-zero : (k : ℕ) → k < 8 → masked 0 k ≡ 0
masked-zero k hk = (==_iff _ _).0 (at_holds_below 8 _ k zero_table hk)
