-- ===== src/Std/Sort.antt =====
-- `sort_by` and `sort_by_key` of slices, as a stable insertion sort.
use mathlib.Core.List.{Perm}
use mathlib.Core.List.Perm
use dht_spider.Prelude.{
  suc, ◌≡◌, refl, ap, ◌∙◌, Bool, true, false, List, [], ◌∷◌, All, length, if◌then◌else◌, Bool-cases,
  inl, inr,
}

module _ {ℓ} {A : Type ℓ} (le : A → A → Bool) where
  unfoldable pub place : A → List A → List A
  place x [] = x ∷ []
  place x (y ∷ ys) = if le x y then x ∷ y ∷ ys else y ∷ place x ys

  unfoldable pub sort_by : List A → List A
  unfolding place
  sort_by [] = []
  sort_by (x ∷ xs) = place x (sort_by xs)

  -- Each element is before all that follow it.
  abbrev pub IsSorted : List A → Type ℓ
  IsSorted [] = Unit
  IsSorted (x ∷ xs) = All (λ y. le x y ≡ true) xs × IsSorted xs

  pub place-All {κ} : (P : A → Type κ) (x : A) (xs : List A) → P x → All P xs → All P (place x xs)
  unfolding place
  place-All P x [] p h = (p, tt)
  place-All P x (y ∷ ys) p h = elim (Bool-cases (le x y)) [
    | inl e ↦ rw (e, place) (p, h)
    | inr e ↦ rw (e, place) (h.0, place-All P x ys p h.1)
  ]

  pub sort_by-All {κ} : (P : A → Type κ) (xs : List A) → All P xs → All P (sort_by xs)
  unfolding sort_by
  sort_by-All P [] h = tt
  sort_by-All P (x ∷ xs) h = place-All P x (sort_by xs) h.0 (sort_by-All P xs h.1)

  length-place : (x : A) (xs : List A) → length (place x xs) ≡ suc (length xs)
  unfolding place
  length-place x [] = refl
  length-place x (y ∷ ys) = elim (Bool-cases (le x y)) [
    | inl e ↦ rw e refl
    | inr e ↦ rw e (ap suc (length-place x ys))
  ]

  pub length-sort_by : (xs : List A) → length (sort_by xs) ≡ length xs
  unfolding sort_by
  length-sort_by [] = refl
  length-sort_by (x ∷ xs) = length-place x (sort_by xs) ∙ ap suc (length-sort_by xs)

  place-Perm : (x : A) (xs : List A) → Perm (place x xs) (x ∷ xs)
  unfolding place
  place-Perm x [] = Perm.refl (x ∷ [])
  place-Perm x (y ∷ ys) = elim (Bool-cases (le x y)) [
    | inl e ↦ rw (e, place) (Perm.refl (x ∷ y ∷ ys))
    | inr e ↦ rw (e, place) (Perm.trans (Perm.cons y (place-Perm x ys)) (Perm.swap x y ys))
  ]

  -- Sorting changes the order only.
  pub sort_by-Perm : (xs : List A) → Perm (sort_by xs) xs
  unfolding sort_by
  sort_by-Perm [] = Perm.refl []
  sort_by-Perm (x ∷ xs) = Perm.trans (place-Perm x (sort_by xs)) (Perm.cons x (sort_by-Perm xs))

  -- On elements with a property `P`, the test is total and transitive.
  module _ {κ} (P : A → Type κ) (total : (a b : A) → P a → P b → le a b ≡ false → le b a ≡ true)
      (trans : (a b c : A) → P a → P b → P c → le a b ≡ true → le b c ≡ true → le a c ≡ true) where
    weaken :
        (x y : A) (ys : List A)
        → P x
        → P y
        → All P ys
        → le x y ≡ true
        → All (λ z. le y z ≡ true) ys
        → All (λ z. le x z ≡ true) ys
    weaken x y [] px py ps e h = tt
    weaken x y (z ∷ zs) px py ps e h =
        (trans x y z px py ps.0 e h.0, weaken x y zs px py ps.1 e h.1)

    place-IsSorted : (x : A) (xs : List A) → P x → All P xs → IsSorted xs → IsSorted (place x xs)
    unfolding place
    place-IsSorted x [] px ps h = (tt, tt)
    place-IsSorted x (y ∷ ys) px ps h = elim (Bool-cases (le x y)) [
      | inl e ↦ rw (e, place) ((e, weaken x y ys px ps.0 ps.1 e h.0), h)
      | inr e ↦
          rw (e, place)
            (
              place-All (λ z. le y z ≡ true) x ys (total x y px ps.0 e) h.0,
              place-IsSorted x ys px ps.1 h.1,
            )
    ]

    pub sort_by-IsSorted : (xs : List A) → All P xs → IsSorted (sort_by xs)
    unfolding sort_by
    sort_by-IsSorted [] ps = tt
    sort_by-IsSorted (x ∷ xs) ps =
        place-IsSorted x (sort_by xs) ps.0 (sort_by-All P xs ps.1) (sort_by-IsSorted xs ps.1)
