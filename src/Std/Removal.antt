-- ===== src/Std/Removal.antt =====
-- Removing many keys from a map, one after another.
use dht_spider.Prelude.{
  ◌+◌, ◌≤◌, ◌≡◌, refl, ◌∙◌, Bool, true, false, none, List, [], ◌∷◌, arith, All, length,
  if◌then◌else◌, Bool-cases, inl, inr,
}
use dht_spider.Std.Map.{
  Eq, get, remove, contains_key, get-remove_self, get-remove_ne, contains_key-remove,
  length-remove-lt,
}

module _ {ℓ} {K : Type ℓ} ⦃e : Eq K⦄ where
  unfoldable pub member : K → List K → Bool
  member k [] = false
  member k (j ∷ js) = if e.beq k j then true else member k js

  -- Keys that differ from each other and are all there: each of them shortens the table.
  abbrev pub AreApart : List K → Type 0
  AreApart [] = Unit
  AreApart (k ∷ ks) = All (λ j. e.beq j k ≡ false) ks × AreApart ks

module _ {ℓ κ} {K : Type ℓ} ⦃e : Eq K⦄ {V : Type κ} where
  -- The keys in order.
  unfoldable pub remove_each : List K → List (K × V) → List (K × V)
  remove_each [] m = m
  remove_each (k ∷ ks) m = remove_each ks (remove k m)

  pub get-remove_each :
      (k : K) (ks : List K) (m : List (K × V))
      → get k (remove_each ks m) ≡ (if member k ks then none else get k m)
  unfolding remove_each member
  get-remove_each k [] m = refl
  get-remove_each k (j ∷ js) m = elim (Bool-cases (e.beq k j)) [
    | inl here ↦
        let same = e.beq→eq k j here in
        let gone : get k (remove j m) ≡ none = rw same (get-remove_self j m) in
        rw here (get-remove_each k js (remove j m) ∙ (rw gone (ground arith)))
    | inr away ↦ rw away (get-remove_each k js (remove j m) ∙ (rw (get-remove_ne j k m away) refl))
  ]

  keep_present :
      (k : K) (ks : List K) (m : List (K × V))
      → All (λ j. e.beq j k ≡ false) ks
      → All (λ j. contains_key j m ≡ true) ks
      → All (λ j. contains_key j (remove k m) ≡ true) ks
  keep_present k [] m apart here = tt
  keep_present k (j ∷ js) m apart here =
      (contains_key-remove k j m apart.0 ∙ here.0, keep_present k js m apart.1 here.1)

  pub length-remove_each :
      (ks : List K) (m : List (K × V))
      → AreApart ks
      → All (λ k. contains_key k m ≡ true) ks
      → length (remove_each ks m) + length ks ≤ length m
  unfolding remove_each
  length-remove_each [] m apart here = omega arith
  length-remove_each (k ∷ ks) m apart here = omega (
    arith,
    length-remove_each ks (remove k m) apart.1 (keep_present k ks m apart.0 here.1),
    length-remove-lt k m here.0,
  )
