-- ===== src/Bencode/Sound.antt =====
-- The decoder on arbitrary input: it ends, stays inside the input, and makes only proper values.
use mathlib.Core.Option
use dht_spider.Prelude.{
  ℕ, zero, suc, ◌+◌, ◌-◌, ◌*◌, ◌%◌, ◌^◌, ◌<◌, ◌≤◌, ◌≡◌, ◌≢◌, refl, Bool, true, false, ◌||◌, Option,
  none, some, [], ◌∷◌, arith, Bytes, length, get_elem?, drop, length-take, length-drop, ltb, ◌==◌,
  if◌then◌else◌, Bool-cases, Option-cases, inl, inr, subst,
}
use dht_spider.Std.Decimal.{ℤ, IsI64, is_digit, parse_i64, parse_i64_bound}
use dht_spider.Std.Utf8.{
  from_utf8, from_utf8_lossy, is_utf8-from_utf8_lossy, length-from_utf8_lossy,
}
use dht_spider.Bencode.Value.{
  BVal, Items, nil, Entries, empty, BError, Result, ok, err, out_of_fuel, ◌>>=◌, ok_or, push,
  insert, IsValue, AreValues, IsMap,
}
use dht_spider.Bencode.Decode.{
  slice, position, find, string_at, decode_string, decode_int, decode_item, decode_list, list_loop,
  decode_dict, dict_loop, decode, fuel_for,
}
use dht_spider.Bencode.Collect.{push-AreValues, insert-IsMap}

-- The run ended, and `P` holds of what it returned if it returned a value.
pub data Yields {ℓ κ} {A : Type ℓ} (P : A → Type κ) : Result A → Type (ℓ ⊔ κ) where
  returns : {a : A} → P a → Yields P (ok a)
  rejects : {e : BError} → Yields P (err e)

module _ {ℓ κ} {A : Type ℓ} {P : A → Type κ} where
  pub Yields-bind {ℓ' κ'} :
      {B : Type ℓ'} {Q : B → Type κ'} {r : Result A} {f : A → Result B}
      → Yields P r
      → ((a : A) → P a → Yields Q (f a))
      → Yields Q (r >>= f)
  Yields-bind (returns {a} h) k = k a h
  Yields-bind rejects k = rejects

  Yields-if :
      (b : Bool) {x y : Result A}
      → (b ≡ true → Yields P x)
      → (b ≡ false → Yields P y)
      → Yields P (if b then x else y)
  Yields-if true hx hy = hx refl
  Yields-if false hx hy = hy refl

  Yields-ok_or : (e : BError) (o : Option A) → ((a : A) → o ≡ some a → P a) → Yields P (ok_or e o)
  Yields-ok_or e none h = rejects
  Yields-ok_or e (some a) h = returns (h a refl)

  pub Yields-weaken {κ'} :
      {Q : A → Type κ'} {r : Result A} → Yields P r → ((a : A) → P a → Q a) → Yields Q r
  Yields-weaken (returns {a} h) k = returns (k a h)
  Yields-weaken rejects k = rejects

  Yields-some {ℓ'} :
      {B : Type ℓ'} (o : Option B) (e : BError) (f : B → Result A)
      → ((b : B) → Yields P (f b))
      → Yields P (elim o [ none ↦ err e | some b ↦ f b ])
  Yields-some none e f h = rejects
  Yields-some (some b) e f h = h b

  pub Yields-ok : {r : Result A} {a : A} → Yields P r → r ≡ ok a → P a
  Yields-ok (returns h) e = subst P (cc) h
  Yields-ok rejects e = cc

  pub Yields-ne-out_of_fuel : {r : Result A} → Yields P r → r ≢ out_of_fuel
  Yields-ne-out_of_fuel (returns h) = cc
  Yields-ne-out_of_fuel rejects = cc

get_elem?-lt : (d : Bytes) (i c : ℕ) → get_elem? d i ≡ some c → i < length d
get_elem?-lt [] i c h = cc
get_elem?-lt (x ∷ xs) zero c h = omega arith
get_elem?-lt (x ∷ xs) (suc i) c h = omega (arith, get_elem?-lt xs i c h)

position-lt : (t : ℕ) (d : Bytes) (k : ℕ) → position t d ≡ some k → k < length d
unfolding position
position-lt t [] k h = cc
position-lt t (x ∷ xs) zero h = omega arith
position-lt t (x ∷ xs) (suc k) h = ground (arith, position-lt t xs k)

-- What `find` returns lies behind the start and inside the input.
find_bounds : (d : Bytes) (i t k : ℕ) → find d i t ≡ some k → (i ≤ k) × (k < length d)
unfolding find
find_bounds d i t k h = elim (Option-cases (position t (drop i d))) [
  | inl e ↦ cc (rw e at h)
  | inr (p, e) ↦
      let h' : some (p + i) ≡ some k = rw e at h in
      let sum : p + i ≡ k = cc in
      let inside = position-lt t (drop i d) p e in (omega arith, omega (arith, length-drop i d))
]

length-slice-le : (d : Bytes) (i j : ℕ) → length (slice d i j) ≤ length d
length-slice-le d i j = omega (arith, length-take (j - i) (drop i d), length-drop i d)

abbrev InsideString : Bytes → ℕ → Bytes × ℕ → Type 0
InsideString d i r = (length r.0 ≤ length d) × (i < r.1) × (r.1 ≤ length d)

string_at-Yields : (d : Bytes) (i k len : ℕ) → i ≤ k → Yields (InsideString d i) (string_at d k len)
unfolding string_at
string_at-Yields d i k len h =
    let end : ℕ = (k + 1 + len) % 2 ^ 64 in
    elim (Bool-cases (ltb (length d) end || ltb end (k + 1))) [
      | inl over ↦ rw over rejects
      | inr fits ↦ rw fits (returns (length-slice-le d (k + 1) end, ground arith, ground arith))
    ]

-- A string read at an index lies inside the input, and the next index lies behind it.
pub decode_string-Yields : (d : Bytes) (i : ℕ) → Yields (InsideString d i) (decode_string d i)
unfolding decode_string
decode_string-Yields d i = elim (Option-cases (get_elem? d i)) [
  | inl e ↦ rw (e, decode_string) rejects
  | inr (c, e) ↦ elim (Bool-cases (is_digit c)) [
    | inl digit ↦
        rw (e, decode_string, digit)
          (Yields-bind {P = λ k. i ≤ k}
            (Yields-ok_or _ _ (λ k found. (find_bounds d i b':' k found).0))
            λ k h.
              Yields-bind {P = λ len. Unit {0}} (Yields-ok_or _ _ (λ len read. tt))
                λ len read. string_at-Yields d i k len h)
    | inr other ↦ rw (e, decode_string, other) rejects
  ]
]

parsed_bound : (s : Bytes) (n : ℤ) → Option.bind (from_utf8 s) parse_i64 ≡ some n → IsI64 n
unfolding Option.bind
parsed_bound s n h = elim (Option-cases (from_utf8 s)) [
  | inl e ↦ cc (rw e at h)
  | inr (t, e) ↦ parse_i64_bound t n (rw e at h)
]

abbrev InsideInt : Bytes → ℕ → ℤ × ℕ → Type 0
InsideInt d i r = IsI64 r.0 × (i < r.1) × (r.1 ≤ length d)

pub decode_int-Yields : (d : Bytes) (i : ℕ) → Yields (InsideInt d i) (decode_int d i)
unfolding decode_int
decode_int-Yields d i = elim (Option-cases (get_elem? d i)) [
  | inl e ↦ rw (e, decode_int) rejects
  | inr (c, e) ↦ elim (Bool-cases (c == b'i')) [
    | inl is ↦
        rw (e, decode_int, is)
          (Yields-bind {P = λ k. (i + 1 ≤ k) × (k < length d)}
            (Yields-ok_or _ _ (λ k found. find_bounds d (i + 1) b'e' k found))
            λ k h.
              Yields-bind {P = IsI64}
                (Yields-ok_or _ _ (λ n read. parsed_bound (slice d (i + 1) k) n read))
                λ n hn. returns (hn, omega arith, omega arith))
    | inr other ↦ rw (e, decode_int, other) rejects
  ]
]

module _ (d : Bytes) (hd : length d < 2 ^ 62) where
  -- A result is what it should be, and the next index lies between `i` and the end.
  abbrev Inside {ℓ} : {A : Type ℓ} → (A → Type 0) → ℕ → A × ℕ → Type 0
  Inside P i r = P r.0 × (i < r.1) × (r.1 ≤ length d)

  mutual
    unfolding decode_item IsValue

    decode_item-Inside :
        (f i : ℕ) → 3 * (length d - i) < f → Yields (Inside IsValue i) (decode_item f d i)
    decode_item-Inside zero i h = absurd (omega arith)
    decode_item-Inside (suc f) i h = elim (Option-cases (get_elem? d i)) [
      | inl e ↦ rw (e, decode_item) rejects
      | inr (c, e) ↦
          let inside = get_elem?-lt d i c e in
          rw (e, decode_item)
            (Yields-if (c == b'l')
              (λ _. Yields-bind (decode_list-Inside f i inside (omega arith)) λ (l, j) k. returns k)
              λ _.
                Yields-if (c == b'd')
                  (λ _.
                    Yields-bind (decode_dict-Inside f i inside (omega arith)) λ (m, j) k. returns k)
                  λ _.
                    Yields-if (c == b'i')
                      (λ _. Yields-bind (decode_int-Yields d i) λ (n, j) k. returns k)
                      λ _.
                        Yields-if (is_digit c)
                          (λ _.
                            Yields-bind (decode_string-Yields d i)
                              λ (s, j) k. returns (omega arith, k.1, k.2))
                          λ _. rejects)
    ]

    decode_list-Inside :
        (f i : ℕ)
        → i < length d
        → 3 * (length d - i) ≤ f
        → Yields (Inside AreValues i) (decode_list f d i)
    decode_list-Inside zero i inside h = absurd (omega arith)
    decode_list-Inside (suc f) i inside h = elim (Option-cases (get_elem? d i)) [
      | inl e ↦ rw (e, decode_list) rejects
      | inr (c, e) ↦
          rw (e, decode_list)
            (Yields-if (c == b'l')
              (λ _.
                Yields-weaken (list_loop-Inside f (i + 1) nil tt (omega arith))
                  λ r k. (k.0, omega arith, k.2))
              λ _. rejects)
    ]

    list_loop-Inside :
        (f i : ℕ) (out : Items)
        → AreValues out
        → 3 * (length d - i) + 1 < f
        → Yields (Inside AreValues i) (list_loop f d i out)
    list_loop-Inside zero i out ho h = absurd (omega arith)
    list_loop-Inside (suc f) i out ho h = elim (Option-cases (get_elem? d i)) [
      | inl e ↦ rw (e, list_loop) rejects
      | inr (c, e) ↦
          let inside = get_elem?-lt d i c e in
          rw (e, list_loop)
            (Yields-if (c == b'e') (λ _. returns (ho, omega arith, omega arith))
              λ _. Yields-bind (decode_item-Inside f i (omega arith)) λ (v, j) k.
                Yields-weaken
                  (list_loop-Inside f j (push out v) (push-AreValues out v ho k.0) (omega arith))
                  λ r k'. (k'.0, omega arith, k'.2))
    ]

    decode_dict-Inside :
        (f i : ℕ)
        → i < length d
        → 3 * (length d - i) ≤ f
        → Yields (Inside IsMap i) (decode_dict f d i)
    decode_dict-Inside zero i inside h = absurd (omega arith)
    decode_dict-Inside (suc f) i inside h = elim (Option-cases (get_elem? d i)) [
      | inl e ↦ rw (e, decode_dict) rejects
      | inr (c, e) ↦
          rw (e, decode_dict)
            (Yields-if (c == b'd')
              (λ _.
                Yields-weaken (dict_loop-Inside f (i + 1) empty tt (omega arith))
                  λ r k. (k.0, omega arith, k.2))
              λ _. rejects)
    ]

    dict_loop-Inside :
        (f i : ℕ) (out : Entries)
        → IsMap out
        → 3 * (length d - i) + 1 < f
        → Yields (Inside IsMap i) (dict_loop f d i out)
    dict_loop-Inside zero i out ho h = absurd (omega arith)
    dict_loop-Inside (suc f) i out ho h = elim (Option-cases (get_elem? d i)) [
      | inl e ↦ rw (e, dict_loop) rejects
      | inr (c, e) ↦
          let inside = get_elem?-lt d i c e in
          rw (e, dict_loop)
            (Yields-if (c == b'e') (λ _. returns (ho, omega arith, omega arith))
              λ _.
                Yields-if (is_digit c)
                  (λ _. Yields-bind (decode_string-Yields d i) λ (k, j) hk.
                    Yields-some (get_elem? d j) _ _ λ c2.
                      Yields-bind (decode_item-Inside f j (omega arith)) λ (v, j2) hv.
                        Yields-weaken
                          (dict_loop-Inside f j2 (insert (from_utf8_lossy k) v out)
                            (insert-IsMap (from_utf8_lossy k) v out ho
                              (is_utf8-from_utf8_lossy k, omega (arith, length-from_utf8_lossy k))
                              hv.0)
                            (omega arith))
                          λ r k'. (k'.0, omega arith, k'.2))
                  λ _. rejects)
    ]

  -- The decoder never runs out of fuel, and whatever it returns is a proper value.
  pub decode-Yields : Yields IsValue (decode d)
  unfolding decode
  decode-Yields =
      Yields-bind (decode_item-Inside (fuel_for d) 0 (omega arith)) λ (v, j) k. returns k.0

  -- Nor does the decoder of a dictionary.
  pub decode_dict-Ends : 0 < length d → Yields (Inside IsMap 0) (decode_dict (fuel_for d) d 0)
  decode_dict-Ends h = decode_dict-Inside (fuel_for d) 0 h (omega arith)

-- The decoder on its own output: what decodes is a value, and so its encoding decodes to it again.
pub decode-IsValue : (d : Bytes) (v : BVal) → length d < 2 ^ 62 → decode d ≡ ok v → IsValue v
decode-IsValue d v hd e = Yields-ok (decode-Yields d hd) e
