-- ===== src/Std/Utf8.antt =====
-- `std::str::from_utf8` and `String::from_utf8_lossy`, over bytes.
use dht_spider.Prelude.{
  ℕ, suc, zero, ◌<◌, ◌≤◌, ◌*◌, length, ◌≡◌, refl, Bool, true, false, ◌&&◌, [], ◌∷◌, Option, none,
  some, arith, Bytes, ltb, leb, if◌then◌else◌, get_or, ap, ◌⊎◌, inl, inr,
}

-- How a scalar value starts at the head of the input: `sound n` is a whole one of n + 1 bytes,
-- `broken n` a maximal ill-formed part of n + 1 bytes.
pub data Lead : Type 0 where
  sound : ℕ → Lead
  broken : ℕ → Lead

abbrev between : ℕ → ℕ → ℕ → Bool
between lo hi c = leb lo c && leb c hi

-- The range allowed for the second byte after a first byte of a multi-byte sequence.
abbrev second_ok : ℕ → ℕ → Bool
second_ok b c =
    if leb b 0xdf
    then between 0x80 0xbf c
    else if leb b 0xe0
    then between 0xa0 0xbf c
    else if leb b 0xec
    then between 0x80 0xbf c
    else if leb b 0xed
    then between 0x80 0x9f c
    else if leb b 0xef
    then between 0x80 0xbf c
    else if leb b 0xf0
    then between 0x90 0xbf c
    else if leb b 0xf3
    then between 0x80 0xbf c
    else between 0x80 0x8f c

-- The number of bytes after the first byte, `none` where no sequence starts with it.
abbrev tail_size : ℕ → Option ℕ
tail_size b =
    if ltb b 0x80
    then some 0
    else if ltb b 0xc2
    then none
    else if leb b 0xdf
    then some 1
    else if leb b 0xef
    then some 2
    else if leb b 0xf4
    then some 3
    else none

-- A byte past the end counts as 0, which continues no sequence.
unfoldable pub lead : ℕ → Bytes → Lead
lead b bs =
    let c1 = get_or bs 0 0 in
    let c2 = get_or bs 1 0 in
    let c3 = get_or bs 2 0 in
    elim (tail_size b) [
      | none ↦ broken 0
      | some zero ↦ sound 0
      | some (suc zero) ↦ if second_ok b c1 then sound 1 else broken 0
      | some (suc (suc zero)) ↦
          if second_ok b c1 then (if between 0x80 0xbf c2 then sound 2 else broken 1) else broken 0
      | some _ ↦
          if second_ok b c1
          then (if between 0x80 0xbf c2
              then (if between 0x80 0xbf c3 then sound 3 else broken 2)
              else broken 1)
          else broken 0
    ]

-- `skip` bytes of the present sequence are still to come.
unfoldable pub valid_from : ℕ → Bytes → Bool
valid_from skip [] = true
valid_from (suc skip) (b ∷ bs) = valid_from skip bs
valid_from zero (b ∷ bs) = elim (lead b bs) [ sound n ↦ valid_from n bs | broken n ↦ false ]

-- Whether `from_utf8` accepts the bytes.
unfoldable pub is_utf8 : Bytes → Bool
unfolding valid_from lead
is_utf8 bs = valid_from 0 bs

unfoldable pub from_utf8 : Bytes → Option Bytes
unfolding is_utf8
from_utf8 bs = if is_utf8 bs then some bs else none

-- Each ill-formed part becomes U+FFFD; `keep` says whether the sequence at hand is copied.
unfoldable pub lossy_from : ℕ → Bool → Bytes → Bytes
lossy_from skip keep [] = []
lossy_from (suc skip) true (b ∷ bs) = b ∷ lossy_from skip true bs
lossy_from (suc skip) false (b ∷ bs) = lossy_from skip false bs
lossy_from zero keep (b ∷ bs) = elim (lead b bs) [
  | sound n ↦ b ∷ lossy_from n true bs
  | broken n ↦ 0xef ∷ 0xbf ∷ 0xbd ∷ lossy_from n false bs
]

unfoldable pub from_utf8_lossy : Bytes → Bytes
unfolding lossy_from lead
from_utf8_lossy bs = lossy_from 0 true bs

Lead-cases : (l : Lead) → ((n : ℕ) × (l ≡ sound n)) ⊎ ((n : ℕ) × (l ≡ broken n))
Lead-cases (sound n) = inl (n, refl)
Lead-cases (broken n) = inr (n, refl)

lossy_from-valid : (s : ℕ) (bs : Bytes) → valid_from s bs ≡ true → lossy_from s true bs ≡ bs
unfolding valid_from lossy_from
lossy_from-valid zero [] h = refl
lossy_from-valid (suc s) [] h = refl
lossy_from-valid (suc s) (b ∷ bs) h = ap (◌∷◌ b) (lossy_from-valid s bs h)
lossy_from-valid zero (b ∷ bs) h = elim (Lead-cases (lead b bs)) [
  | inl (n, e) ↦ rw (e, lossy_from) (ap (◌∷◌ b) (lossy_from-valid n bs (rw (e, valid_from) at h)))
  | inr (n, e) ↦ cc (rw (e, valid_from) at h)
]

-- Well-formed text is kept as it is.
pub from_utf8_lossy-is_utf8 : (bs : Bytes) → is_utf8 bs ≡ true → from_utf8_lossy bs ≡ bs
unfolding from_utf8_lossy is_utf8
from_utf8_lossy-is_utf8 bs h = lossy_from-valid 0 bs h

get_or-lossy_from :
    (s : ℕ) (bs : Bytes) (i : ℕ) → i < s → get_or (lossy_from s true bs) i 0 ≡ get_or bs i 0
unfolding lossy_from
get_or-lossy_from zero bs i h = absurd (omega arith)
get_or-lossy_from (suc s) [] i h = refl
get_or-lossy_from (suc s) (b ∷ bs) zero h = refl
get_or-lossy_from (suc s) (b ∷ bs) (suc i) h = get_or-lossy_from s bs i (omega arith)

lead-agree :
    (b n : ℕ) (bs cs : Bytes)
    → ((i : ℕ) → i < n → get_or cs i 0 ≡ get_or bs i 0)
    → lead b bs ≡ sound n
    → lead b cs ≡ sound n
unfolding lead
lead-agree b n bs cs same h = ground (arith, same 0, same 1, same 2)

lead-replacement : (bs : Bytes) → lead 0xef (0xbf ∷ 0xbd ∷ bs) ≡ sound 2
unfolding lead
lead-replacement bs = refl

abbrev LossyIsValid : Bytes → Type 0
LossyIsValid bs =
    ((s : ℕ) → valid_from s (lossy_from s true bs) ≡ true)
    × ((s : ℕ) → valid_from 0 (lossy_from s false bs) ≡ true)

valid_from-lossy_head :
    (b : ℕ) (bs : Bytes) (keep : Bool)
    → LossyIsValid bs
    → valid_from 0 (lossy_from 0 keep (b ∷ bs)) ≡ true
unfolding valid_from lossy_from
valid_from-lossy_head b bs keep ih = elim (Lead-cases (lead b bs)) [
  | inl (n, e) ↦
      let e' : lead b (lossy_from n true bs) ≡ sound n =
        lead-agree b n bs (lossy_from n true bs) (get_or-lossy_from n bs) e in
      rw (e, lossy_from) (rw (e', valid_from) (ih.0 n))
  | inr (n, e) ↦
      rw (e, lossy_from) (rw (lead-replacement (lossy_from n false bs), valid_from) (ih.1 n))
]

valid_from-lossy_from : (bs : Bytes) → LossyIsValid bs
unfolding valid_from lossy_from
valid_from-lossy_from [] = (kept, dropped)
  where
    kept : (s : ℕ) → valid_from s (lossy_from s true []) ≡ true
    kept zero = refl
    kept (suc s) = refl

    dropped : (s : ℕ) → valid_from 0 (lossy_from s false []) ≡ true
    dropped zero = refl
    dropped (suc s) = refl
valid_from-lossy_from (b ∷ bs) = parts (valid_from-lossy_from bs)
  where
    parts : LossyIsValid bs → LossyIsValid (b ∷ bs)
    parts ih = (kept, dropped)
      where
        kept : (s : ℕ) → valid_from s (lossy_from s true (b ∷ bs)) ≡ true
        kept zero = valid_from-lossy_head b bs true ih
        kept (suc s) = ih.0 s

        dropped : (s : ℕ) → valid_from 0 (lossy_from s false (b ∷ bs)) ≡ true
        dropped zero = valid_from-lossy_head b bs false ih
        dropped (suc s) = ih.1 s

-- What `from_utf8_lossy` returns is well-formed text.
pub is_utf8-from_utf8_lossy : (bs : Bytes) → is_utf8 (from_utf8_lossy bs) ≡ true
unfolding from_utf8_lossy is_utf8
is_utf8-from_utf8_lossy bs = (valid_from-lossy_from bs).0 0

length-lossy_from :
    (s : ℕ) (keep : Bool) (bs : Bytes) → length (lossy_from s keep bs) ≤ 3 * length bs
unfolding lossy_from
length-lossy_from s keep [] = omega arith
length-lossy_from (suc s) true (b ∷ bs) = omega (arith, length-lossy_from s true bs)
length-lossy_from (suc s) false (b ∷ bs) = omega (arith, length-lossy_from s false bs)
length-lossy_from zero keep (b ∷ bs) = elim (Lead-cases (lead b bs)) [
  | inl (n, e) ↦ rw (e, lossy_from) (omega (arith, length-lossy_from n true bs))
  | inr (n, e) ↦ rw (e, lossy_from) (omega (arith, length-lossy_from n false bs))
]

pub length-from_utf8_lossy : (bs : Bytes) → length (from_utf8_lossy bs) ≤ 3 * length bs
unfolding from_utf8_lossy
length-from_utf8_lossy bs = length-lossy_from 0 true bs
