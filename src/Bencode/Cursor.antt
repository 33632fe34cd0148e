-- ===== src/Bencode/Cursor.antt =====
-- Reading at an index: `drop i input ≡ xs` says that `xs` is what follows index `i`.
use dht_spider.Prelude.{
  ℕ, zero, suc, ◌+◌, ◌-◌, ◌≡◌, ◌≢◌, refl, ap, some, [], ◌∷◌, ◌++◌, arith, Bytes, All, length,
  get_elem?, drop, ==_iff, ◌==◌, length-drop, take-length-append, drop-append, false,
}
use dht_spider.Bencode.Decode.{slice, position, find}

pub get_elem?-drop :
    (i : ℕ) (d : Bytes) (c : ℕ) (cs : Bytes) → drop i d ≡ c ∷ cs → get_elem? d i ≡ some c
get_elem?-drop zero [] c cs h = cc
get_elem?-drop zero (x ∷ xs) c cs h = cc
get_elem?-drop (suc i) [] c cs h = cc
get_elem?-drop (suc i) (x ∷ xs) c cs h = get_elem?-drop i xs c cs h

pub drop-suc : (i : ℕ) (d : Bytes) (c : ℕ) (cs : Bytes) → drop i d ≡ c ∷ cs → drop (i + 1) d ≡ cs
drop-suc i d c cs h = drop-append i d (c ∷ []) cs h

pub length-at :
    (i : ℕ) (d : Bytes) (c : ℕ) (cs : Bytes) → drop i d ≡ c ∷ cs → length d ≡ i + suc (length cs)
length-at i d c cs h = omega (arith, length-drop i d, ap length h)

pub slice-append :
    (i j : ℕ) (d xs ys : Bytes) → drop i d ≡ xs ++ ys → i + length xs ≡ j → slice d i j ≡ xs
slice-append i j d xs ys h e =
    let e' : j - i ≡ length xs = omega arith in rw (e', h) (take-length-append xs ys)

pub position-append :
    (t : ℕ) (xs ys : Bytes) → All (λ x. x ≢ t) xs → position t (xs ++ t ∷ ys) ≡ some (length xs)
unfolding position
position-append t [] ys h = rw ((==_iff t t).1 refl)
position-append t (x ∷ xs) ys h =
    let e : (x == t) ≡ false = ground (arith, h.0) in rw (e, position-append t xs ys h.1) refl

-- The first `t` behind index `i`.
pub find-append :
    (i t : ℕ) (d xs ys : Bytes)
    → drop i d ≡ xs ++ t ∷ ys
    → All (λ x. x ≢ t) xs
    → find d i t ≡ some (length xs + i)
unfolding find
find-append i t d xs ys h k = rw (h, position-append t xs ys k) refl
