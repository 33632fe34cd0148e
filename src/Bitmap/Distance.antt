-- ===== src/Bitmap/Distance.antt =====
-- The comparison of whole bitmaps is the order of their bytes.
use dht_spider.Prelude.{
  ℕ, suc, ◌*◌, ◌/◌, ◌%◌, ◌≡◌, refl, ap, subst, true, Option, some, [], ◌∷◌, arith, Bytes, length,
  take, take-length, leb, bit_xor, ◌==◌, ==_iff, Ordering,
}
use dht_spider.Std.Order.{bytes_cmp}
use dht_spider.Bitmap.{from_bytes, xor, xor_bytes, compare_prefix, compare_bits}

-- The bytes of the distance between two ids.
unfoldable pub xor_of : Bytes → Bytes → Bytes
xor_of [] ys = []
xor_of (x ∷ xs) [] = []
xor_of (x ∷ xs) (y ∷ ys) = bit_xor x y ∷ xor_of xs ys

pub length-xor_of : (xs ys : Bytes) → length xs ≡ length ys → length (xor_of xs ys) ≡ length xs
unfolding xor_of
length-xor_of [] ys h = refl
length-xor_of (x ∷ xs) [] h = absurd (omega arith)
length-xor_of (x ∷ xs) (y ∷ ys) h = ap suc (length-xor_of xs ys (omega arith))

xor_bytes-xor_of : (xs ys : Bytes) → length xs ≡ length ys → xor_bytes xs ys ≡ some (xor_of xs ys)
unfolding xor_bytes xor_of
xor_bytes-xor_of [] ys h = refl
xor_bytes-xor_of (x ∷ xs) [] h = absurd (omega arith)
xor_bytes-xor_of (x ∷ xs) (y ∷ ys) h = rw (xor_bytes-xor_of xs ys (omega arith)) refl

pub xor-from_bytes :
    (xs ys : Bytes)
    → length xs ≡ length ys
    → xor (from_bytes xs) (from_bytes ys) ≡ some (from_bytes (xor_of xs ys))
unfolding xor from_bytes
xor-from_bytes xs ys h =
    let same : (length xs * 8 == length ys * 8) ≡ true = (==_iff _ _).1 (omega arith) in
    rw (same, xor_bytes-xor_of xs ys h, length-xor_of xs ys h) refl

-- Comparing all the bits of two bitmaps of one length compares their bytes.
compare_prefix-bytes_cmp :
    (xs ys : Bytes)
    → length xs ≡ length ys
    → compare_prefix (from_bytes xs) (from_bytes ys) (length xs * 8) ≡ some (bytes_cmp xs ys)
unfolding compare_prefix from_bytes compare_bits
compare_prefix-bytes_cmp xs ys h =
    let size : leb (length xs * 8) (length xs * 8) ≡ true = ground arith in
    let size' : leb (length xs * 8) (length ys * 8) ≡ true = ground arith in
    let div : length xs * 8 / 8 ≡ length xs = omega arith in
    let rem : length xs * 8 % 8 ≡ 0 = omega arith in
    let whole : leb (length xs) (length xs) ≡ true = ground arith in
    let whole' : leb (length xs) (length ys) ≡ true = ground arith in
    let all' : take (length xs) ys ≡ ys = rw h (take-length ys) in
    let start = length xs * 8 / 8 * 8 in
    let tail : compare_bits (length xs * 8 % 8) start (from_bytes xs) (from_bytes ys)
        ≡ some Ordering.eq =
      rw rem refl in
    rw (size, size', div, whole, whole', take-length xs, all')
      (by_cases (compare_bits (length xs * 8 % 8) start (from_bytes xs) (from_bytes ys)) tail
        (bytes_cmp xs ys))
  where
    by_cases :
        (tail : Option Ordering)
        → tail ≡ some Ordering.eq
        → (o : Ordering)
        → elim o [
          | Ordering.lt ↦ some Ordering.lt
          | Ordering.eq ↦ tail
          | Ordering.gt ↦ some Ordering.gt
        ]
          ≡ some o
    by_cases tail e Ordering.lt = refl
    by_cases tail e Ordering.eq = e
    by_cases tail e Ordering.gt = refl

pub compare_prefix_whole :
    (xs ys : Bytes) (n : ℕ)
    → length xs ≡ length ys
    → length xs * 8 ≡ n
    → compare_prefix (from_bytes xs) (from_bytes ys) n ≡ some (bytes_cmp xs ys)
compare_prefix_whole xs ys n h e =
    subst (λ (m : ℕ). compare_prefix (from_bytes xs) (from_bytes ys) m ≡ some (bytes_cmp xs ys)) e
      (compare_prefix-bytes_cmp xs ys h)
