-- ===== src/Std/Map.antt =====
-- `HashMap` and `DashMap` as lists of entries, one for each key; the order of iteration is the
-- order of the list. One call at a time: a `DashMap`'s shards are not modelled.
use dht_spider.Prelude.{
  suc, ◌≤◌, ◌<◌, ◌≡◌, refl, sym, ◌∙◌, Bool, true, false, Option, none, some, List, [], ◌∷◌, arith,
  Bytes, length, if◌then◌else◌, Bool-cases, inl, inr,
}
use dht_spider.Std.Order.{bytes_eq, bytes_eq_iff}
use dht_spider.Std.Net.{IpAddr, ip_eq, ip_eq→eq, ip_eq_refl}

pub record Eq {ℓ} (K : Type ℓ) : Type ℓ where
  pub beq : K → K → Bool
  pub beq→eq : (a b : K) → beq a b ≡ true → a ≡ b
  pub beq_refl : (a : K) → beq a a ≡ true

pub bytes_eq→eq : (a b : Bytes) → bytes_eq a b ≡ true → a ≡ b
bytes_eq→eq a b = (bytes_eq_iff a b).0

pub bytes_eq_refl : (a : Bytes) → bytes_eq a a ≡ true
bytes_eq_refl a = (bytes_eq_iff a a).1 refl

instance abbrev pub bytes_Eq : Eq Bytes
bytes_Eq = record { beq = bytes_eq; beq→eq = bytes_eq→eq; beq_refl = bytes_eq_refl }

instance abbrev pub ip_Eq : Eq IpAddr
ip_Eq = record { beq = ip_eq; beq→eq = ip_eq→eq; beq_refl = ip_eq_refl }

pub beq_false_sym {ℓ} : {K : Type ℓ} ⦃e : Eq K⦄ (a b : K) → e.beq a b ≡ false → e.beq b a ≡ false
beq_false_sym ⦃e⦄ a b h = elim (Bool-cases (e.beq b a)) [
  | inl p ↦
      let same = e.beq→eq b a p in
      let both : e.beq a b ≡ true = rw same (e.beq_refl a) in cc (h, both)
  | inr p ↦ p
]

module _ {ℓ κ} {K : Type ℓ} ⦃e : Eq K⦄ {V : Type κ} where
  unfoldable pub get : K → List (K × V) → Option V
  get k [] = none
  get k ((j, v) ∷ m) = if e.beq k j then some v else get k m

  unfoldable pub remove : K → List (K × V) → List (K × V)
  remove k [] = []
  remove k ((j, v) ∷ m) = if e.beq k j then remove k m else (j, v) ∷ remove k m

  -- A new key goes to the end, an old one keeps its place.
  unfoldable pub insert : K → V → List (K × V) → List (K × V)
  insert k v [] = (k, v) ∷ []
  insert k v ((j, w) ∷ m) = if e.beq k j then (k, v) ∷ m else (j, w) ∷ insert k v m

  unfoldable pub contains_key : K → List (K × V) → Bool
  contains_key k [] = false
  contains_key k ((j, v) ∷ m) = if e.beq k j then true else contains_key k m

  unfoldable pub retain : (V → Bool) → List (K × V) → List (K × V)
  retain p [] = []
  retain p ((j, v) ∷ m) = if p v then (j, v) ∷ retain p m else retain p m

  -- One entry for each key.
  abbrev pub Fresh : K → List (K × V) → Type 0
  Fresh k m = contains_key k m ≡ false

  abbrev pub IsMap : List (K × V) → Type 0
  IsMap [] = Unit
  IsMap ((k, v) ∷ m) = Fresh k m × IsMap m

  pub get-insert_self : (k : K) (v : V) (m : List (K × V)) → get k (insert k v m) ≡ some v
  unfolding get insert
  get-insert_self k v [] = rw (e.beq_refl k)
  get-insert_self k v ((j, w) ∷ m) = elim (Bool-cases (e.beq k j)) [
    | inl h ↦ rw (h, get, e.beq_refl k)
    | inr h ↦ rw (h, get, h) (get-insert_self k v m)
  ]

  pub get-insert_ne :
      (k j : K) (v : V) (m : List (K × V)) → e.beq j k ≡ false → get j (insert k v m) ≡ get j m
  unfolding get insert
  get-insert_ne k j v [] h = rw h
  get-insert_ne k j v ((i, w) ∷ m) h = elim (Bool-cases (e.beq k i)) [
    | inl p ↦
        let same = e.beq→eq k i p in
        let other : e.beq j i ≡ false = rw (← same) h in rw (p, get, h, other) refl
    | inr p ↦ rw (p, get, get-insert_ne k j v m h) refl
  ]

  pub get-remove_self : (k : K) (m : List (K × V)) → get k (remove k m) ≡ none
  unfolding get remove
  get-remove_self k [] = refl
  get-remove_self k ((j, w) ∷ m) = elim (Bool-cases (e.beq k j)) [
    | inl h ↦ rw (h, remove) (get-remove_self k m)
    | inr h ↦ rw (h, get, h) (get-remove_self k m)
  ]

  pub get-remove_ne :
      (k j : K) (m : List (K × V)) → e.beq j k ≡ false → get j (remove k m) ≡ get j m
  unfolding get remove
  get-remove_ne k j [] h = refl
  get-remove_ne k j ((i, w) ∷ m) h = elim (Bool-cases (e.beq k i)) [
    | inl p ↦
        let same = e.beq→eq k i p in
        let other : e.beq j i ≡ false = rw (← same) h in rw (p, other) (get-remove_ne k j m h)
    | inr p ↦ rw (p, get, get-remove_ne k j m h) refl
  ]

  pub length-insert :
      (k : K) (v : V) (m : List (K × V))
      → length (insert k v m) ≡ (if contains_key k m then length m else suc (length m))
  unfolding insert contains_key
  length-insert k v [] = refl
  length-insert k v ((j, w) ∷ m) = ground (arith, length-insert k v m)

  pub contains_key-get :
      (k : K) (m : List (K × V))
      → contains_key k m ≡ elim (get k m) [ none ↦ false | some v ↦ true ]
  unfolding contains_key get
  contains_key-get k [] = refl
  contains_key-get k ((j, w) ∷ m) = ground (arith, contains_key-get k m)

  pub get-absent : (k : K) (m : List (K × V)) → contains_key k m ≡ false → get k m ≡ none
  unfolding contains_key get
  get-absent k [] h = refl
  get-absent k ((j, w) ∷ m) h = ground (arith, get-absent k m)

  pub get-retain :
      (p : V → Bool) (k : K) (m : List (K × V))
      → IsMap m
      → get k (retain p m) ≡ elim (get k m) [ none ↦ none | some v ↦ if p v then some v else none ]
  unfolding get retain
  get-retain p k [] h = refl
  get-retain p k ((j, w) ∷ m) h = elim (Bool-cases (e.beq k j)) [
    | inl same ↦
        let here = e.beq→eq k j same in
        let absent : get k m ≡ none = get-absent k m (rw here h.0) in
        ground (arith, get-retain p k m h.1)
    | inr other ↦ ground (arith, get-retain p k m h.1)
  ]

  pub contains_key-insert :
      (j k : K) (v : V) (m : List (K × V))
      → contains_key j (insert k v m) ≡ (if e.beq j k then true else contains_key j m)
  unfolding contains_key insert
  contains_key-insert j k v [] = refl
  contains_key-insert j k v ((i, w) ∷ m) = elim (Bool-cases (e.beq k i)) [
    | inl p ↦ let same = e.beq→eq k i p in rw (p, contains_key, same) (ground arith)
    | inr p ↦ ground (arith, contains_key-insert j k v m)
  ]

  pub contains_key-retain :
      (p : V → Bool) (k : K) (m : List (K × V))
      → contains_key k m ≡ false
      → contains_key k (retain p m) ≡ false
  unfolding contains_key retain
  contains_key-retain p k [] h = refl
  contains_key-retain p k ((j, w) ∷ m) h = ground (arith, contains_key-retain p k m)

  pub retain-IsMap : (p : V → Bool) (m : List (K × V)) → IsMap m → IsMap (retain p m)
  unfolding retain
  retain-IsMap p [] h = tt
  retain-IsMap p ((j, w) ∷ m) h = elim (Bool-cases (p w)) [
    | inl keep ↦ rw (keep, retain) (contains_key-retain p j m h.0, retain-IsMap p m h.1)
    | inr gone ↦ rw (gone, retain) (retain-IsMap p m h.1)
  ]

  pub insert-IsMap : (k : K) (v : V) (m : List (K × V)) → IsMap m → IsMap (insert k v m)
  unfolding insert contains_key
  insert-IsMap k v [] h = (refl, tt)
  insert-IsMap k v ((j, w) ∷ m) h = elim (Bool-cases (e.beq k j)) [
    | inl p ↦ let same = e.beq→eq k j p in rw (p, insert, same) h
    | inr p ↦
        rw (p, insert)
          (rw (contains_key-insert j k v m, beq_false_sym k j p) h.0, insert-IsMap k v m h.1)
  ]

  pub length-retain-le : (p : V → Bool) (m : List (K × V)) → length (retain p m) ≤ length m
  unfolding retain
  length-retain-le p [] = omega arith
  length-retain-le p ((j, w) ∷ m) = ground (arith, length-retain-le p m)

  pub length-insert-le : (k : K) (v : V) (m : List (K × V)) → length (insert k v m) ≤ suc (length m)
  length-insert-le k v m = ground (arith, length-insert k v m)

  pub length-remove-le : (k : K) (m : List (K × V)) → length (remove k m) ≤ length m
  unfolding remove
  length-remove-le k [] = omega arith
  length-remove-le k ((j, w) ∷ m) = ground (arith, length-remove-le k m)

  pub remove_absent : (k : K) (m : List (K × V)) → contains_key k m ≡ false → remove k m ≡ m
  unfolding remove contains_key
  remove_absent k [] h = refl
  remove_absent k ((j, w) ∷ m) h = ground (arith, remove_absent k m)

  pub remove-insert :
      (k : K) (v : V) (m : List (K × V)) → contains_key k m ≡ false → remove k (insert k v m) ≡ m
  unfolding remove insert contains_key
  remove-insert k v [] h = rw (e.beq_refl k) refl
  remove-insert k v ((j, w) ∷ m) h = elim (Bool-cases (e.beq k j)) [
    | inl p ↦ ground arith
    | inr p ↦ ground (arith, remove-insert k v m)
  ]

  pub contains_key-remove :
      (k j : K) (m : List (K × V))
      → e.beq j k ≡ false
      → contains_key j (remove k m) ≡ contains_key j m
  contains_key-remove k j m h =
      contains_key-get j (remove k m) ∙ (rw (get-remove_ne k j m h) (sym (contains_key-get j m)))

  pub length-remove-lt :
      (k : K) (m : List (K × V)) → contains_key k m ≡ true → length (remove k m) < length m
  unfolding remove contains_key
  length-remove-lt k [] h = cc
  length-remove-lt k ((j, v) ∷ m) h = elim (Bool-cases (e.beq k j)) [
    | inl here ↦ rw here (omega (arith, length-remove-le k m))
    | inr away ↦ rw away (omega (arith, length-remove-lt k m (rw away at h)))
  ]

  pub remove-IsMap : (k : K) (m : List (K × V)) → IsMap m → IsMap (remove k m)
  unfolding remove
  remove-IsMap k [] h = tt
  remove-IsMap k ((j, v) ∷ m) h = elim (Bool-cases (e.beq k j)) [
    | inl here ↦ rw (here, remove) (remove-IsMap k m h.1)
    | inr away ↦
        rw (away, remove)
          (contains_key-remove k j m (beq_false_sym k j away) ∙ h.0, remove-IsMap k m h.1)
  ]
