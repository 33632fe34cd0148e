-- ===== src/Bitmap/Bits.antt =====
-- The bits of a byte string at every index, and what changing a byte does to them.
use dht_spider.Prelude.{
  ℕ, zero, suc, ◌+◌, ◌-◌, ◌*◌, ◌/◌, ◌%◌, ◌^◌, ◌<◌, ◌≤◌, bit_and, bit_or, ◌≡◌, refl, ap, ◌∙◌, Bool,
  true, false, Option, none, some, List, [], ◌∷◌, ◌++◌, arith, Bytes, All, length, get_elem?,
  get_or, replicate, ◌==◌, ==_iff, if◌then◌else◌, Bool-cases, inl, inr,
}
use dht_spider.Prelude as Prelude
use dht_spider.Std.Bits.{masked, masked-bit_or, masked-bit_and}
use dht_spider.Bitmap.{bit_in}

abbrev pub IsByte : ℕ → Type 0
IsByte b = b < 256

-- The bit at an index; past the end it is 0.
unfoldable pub raw : Bytes → ℕ → ℕ
raw xs i = bit_in (get_or xs (i / 8) 0) i

pub get_elem?-get_or : (xs : Bytes) (i : ℕ) → i < length xs → get_elem? xs i ≡ some (get_or xs i 0)
get_elem?-get_or [] i h = absurd (omega arith)
get_elem?-get_or (x ∷ xs) zero h = refl
get_elem?-get_or (x ∷ xs) (suc i) h = get_elem?-get_or xs i (omega arith)

pub get_or-IsByte : (xs : Bytes) (i : ℕ) → All IsByte xs → IsByte (get_or xs i 0)
get_or-IsByte [] i h = omega arith
get_or-IsByte (x ∷ xs) zero h = h.0
get_or-IsByte (x ∷ xs) (suc i) h = get_or-IsByte xs i h.1

pub set-IsByte : (xs : Bytes) (i v : ℕ) → All IsByte xs → IsByte v → All IsByte (Prelude.set xs i v)
set-IsByte [] i v h k = tt
set-IsByte (x ∷ xs) zero v h k = (k, h.1)
set-IsByte (x ∷ xs) (suc i) v h k = (h.0, set-IsByte xs i v h.1 k)

get_or-set_self : (xs : Bytes) (i v : ℕ) → i < length xs → get_or (Prelude.set xs i v) i 0 ≡ v
get_or-set_self [] i v h = absurd (omega arith)
get_or-set_self (x ∷ xs) zero v h = refl
get_or-set_self (x ∷ xs) (suc i) v h = get_or-set_self xs i v (omega arith)

get_or-set_ne :
    (xs : Bytes) (i j v : ℕ) → (i == j) ≡ false → get_or (Prelude.set xs i v) j 0 ≡ get_or xs j 0
get_or-set_ne [] i j v h = refl
get_or-set_ne (x ∷ xs) zero zero v h = absurd (ground arith)
get_or-set_ne (x ∷ xs) zero (suc j) v h = refl
get_or-set_ne (x ∷ xs) (suc i) zero v h = refl
get_or-set_ne (x ∷ xs) (suc i) (suc j) v h = get_or-set_ne xs i j v (ground arith)

-- A byte that gets bit `value` at the place of index `i`, and no other change, changes bit `i`
-- only.
module _ (xs : Bytes) (i value : ℕ) (f : ℕ → ℕ)
    (changes : (x k : ℕ)
      → x < 256
      → k < 8
      → masked (f x) k ≡ (if 7 - i % 8 == k then value else masked x k)) where
  pub raw-set :
      (j : ℕ)
      → All IsByte xs
      → i / 8 < length xs
      → raw (Prelude.set xs (i / 8) (f (get_or xs (i / 8) 0))) j
        ≡ (if i == j then value else raw xs j)
  unfolding raw
  raw-set j h room = elim (Bool-cases (i / 8 == j / 8)) [
    | inl here ↦
        let same : i / 8 ≡ j / 8 = (==_iff _ _).0 here in
        let byte = get_or xs (i / 8) 0 in
        let changed = changes byte (7 - j % 8) (get_or-IsByte xs (i / 8) h) (omega arith) in
        let places : (7 - i % 8 == 7 - j % 8) ≡ (i == j) = ground arith in
        rw (← same, get_or-set_self xs (i / 8) (f byte) room, changed, places) refl
    | inr away ↦
        let differ : (i == j) ≡ false = ground arith in
        rw (get_or-set_ne xs (i / 8) (j / 8) (f (get_or xs (i / 8) 0)) away, differ) refl
  ]

pub raw-set_bit :
    (xs : Bytes) (i j : ℕ)
    → All IsByte xs
    → i / 8 < length xs
    → raw (Prelude.set xs (i / 8) (bit_or (get_or xs (i / 8) 0) (2 ^ (7 - i % 8)))) j
      ≡ (if i == j then 1 else raw xs j)
raw-set_bit xs i =
    raw-set xs i 1 (λ x. bit_or x (2 ^ (7 - i % 8)))
      (λ x k hx hk. masked-bit_or x (7 - i % 8) k hx (omega arith) hk)

pub raw-unset_bit :
    (xs : Bytes) (i j : ℕ)
    → All IsByte xs
    → i / 8 < length xs
    → raw (Prelude.set xs (i / 8) (bit_and (get_or xs (i / 8) 0) (255 - 2 ^ (7 - i % 8)))) j
      ≡ (if i == j then 0 else raw xs j)
raw-unset_bit xs i =
    raw-set xs i 0 (λ x. bit_and x (255 - 2 ^ (7 - i % 8)))
      (λ x k hx hk. masked-bit_and x (7 - i % 8) k hx (omega arith) hk)

get_or-zeros : (xs : Bytes) (n i : ℕ) → get_or (xs ++ replicate n 0) i 0 ≡ get_or xs i 0
get_or-zeros [] zero i = refl
get_or-zeros [] (suc n) zero = refl
get_or-zeros [] (suc n) (suc i) = get_or-zeros [] n i
get_or-zeros (x ∷ xs) n zero = refl
get_or-zeros (x ∷ xs) n (suc i) = get_or-zeros xs n i

-- Zero bytes at the end change no bit.
pub raw-zeros : (xs : Bytes) (n i : ℕ) → raw (xs ++ replicate n 0) i ≡ raw xs i
unfolding raw
raw-zeros xs n i = rw (get_or-zeros xs n (i / 8)) refl

pub replicate-IsByte : (n : ℕ) → All IsByte (replicate n 0)
replicate-IsByte zero = tt
replicate-IsByte (suc n) = (omega arith, replicate-IsByte n)

pub length-replicate : (n : ℕ) → length {A = ℕ} (replicate n 0) ≡ n
length-replicate zero = refl
length-replicate (suc n) = ap suc (length-replicate n)
