-- ===== src/Std/Order.antt =====
-- The order of byte strings: `Ord` of slices, which is also the order of `String`.
use dht_spider.Prelude.{◌≡◌, refl, [], ◌∷◌, arith, Bytes, Bool, true, false, compare, Ordering, ◌↔◌}

unfoldable pub bytes_cmp : Bytes → Bytes → Ordering
bytes_cmp [] [] = Ordering.eq
bytes_cmp [] (y ∷ ys) = Ordering.lt
bytes_cmp (x ∷ xs) [] = Ordering.gt
bytes_cmp (x ∷ xs) (y ∷ ys) = elim (compare x y) [
  | Ordering.lt ↦ Ordering.lt
  | Ordering.eq ↦ bytes_cmp xs ys
  | Ordering.gt ↦ Ordering.gt
]

pub bytes_cmp_refl : (xs : Bytes) → bytes_cmp xs xs ≡ Ordering.eq
unfolding bytes_cmp
bytes_cmp_refl [] = refl
bytes_cmp_refl (x ∷ xs) = ground (arith, bytes_cmp_refl xs)

pub bytes_cmp-eq : (xs ys : Bytes) → bytes_cmp xs ys ≡ Ordering.eq → xs ≡ ys
unfolding bytes_cmp
bytes_cmp-eq [] [] h = refl
bytes_cmp-eq [] (y ∷ ys) h = cc
bytes_cmp-eq (x ∷ xs) [] h = cc
bytes_cmp-eq (x ∷ xs) (y ∷ ys) h = ground (arith, bytes_cmp-eq xs ys)

pub bytes_cmp-gt : (xs ys : Bytes) → bytes_cmp xs ys ≡ Ordering.gt → bytes_cmp ys xs ≡ Ordering.lt
unfolding bytes_cmp
bytes_cmp-gt [] [] h = cc
bytes_cmp-gt [] (y ∷ ys) h = cc
bytes_cmp-gt (x ∷ xs) [] h = refl
bytes_cmp-gt (x ∷ xs) (y ∷ ys) h = ground (arith, bytes_cmp-gt xs ys)

pub bytes_cmp-lt_flip :
    (xs ys : Bytes) → bytes_cmp xs ys ≡ Ordering.lt → bytes_cmp ys xs ≡ Ordering.gt
unfolding bytes_cmp
bytes_cmp-lt_flip [] [] h = cc
bytes_cmp-lt_flip [] (y ∷ ys) h = refl
bytes_cmp-lt_flip (x ∷ xs) [] h = cc
bytes_cmp-lt_flip (x ∷ xs) (y ∷ ys) h = ground (arith, bytes_cmp-lt_flip xs ys)

pub bytes_cmp_trans :
    (xs ys zs : Bytes)
    → bytes_cmp xs ys ≡ Ordering.lt
    → bytes_cmp ys zs ≡ Ordering.lt
    → bytes_cmp xs zs ≡ Ordering.lt
unfolding bytes_cmp
bytes_cmp_trans [] [] zs h k = cc
bytes_cmp_trans [] (y ∷ ys) [] h k = cc
bytes_cmp_trans [] (y ∷ ys) (z ∷ zs) h k = refl
bytes_cmp_trans (x ∷ xs) [] zs h k = cc
bytes_cmp_trans (x ∷ xs) (y ∷ ys) [] h k = cc
bytes_cmp_trans (x ∷ xs) (y ∷ ys) (z ∷ zs) h k = ground (arith, bytes_cmp_trans xs ys zs)

-- Equality of byte strings, as the program's `==`.
unfoldable pub bytes_eq : Bytes → Bytes → Bool
unfolding bytes_cmp
bytes_eq xs ys = elim (bytes_cmp xs ys) [ Ordering.eq ↦ true | _ ↦ false ]

pub bytes_eq_iff : (xs ys : Bytes) → (bytes_eq xs ys ≡ true) ↔ (xs ≡ ys)
unfolding bytes_eq
bytes_eq_iff xs ys = (λ h. to h, λ h. from h)
  where
    to : bytes_eq xs ys ≡ true → xs ≡ ys
    to h = bytes_cmp-eq xs ys (ground arith)

    from : xs ≡ ys → bytes_eq xs ys ≡ true
    from h = rw h (rw (bytes_cmp_refl ys, bytes_eq))
