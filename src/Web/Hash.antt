-- ===== src/Web/Hash.antt =====
-- The info hashes that `parse_infohash` of src/web.rs reads.
use dht_spider.Prelude.{
  length-map, ℕ, ◌*◌, ◌≡◌, refl, subst, Bool, true, ◌&&◌, ◌⊎◌, inl, inr, Option, none, some, List,
  [], ◌∷◌, ◌++◌, Bytes, All, All-append, codes, length, map, ◌==◌, ==_iff, Bool-cases, arith,
}
use dht_spider.Std.Text.{lower, is_hexdigit, all, strip_prefix, is_some, or_else, split, trim}
use dht_spider.Std.TextLaws.{
  IsGraphic, Lacks, join, lower_idem, is_hexdigit-lower, split-join, trim_lem,
}
use dht_spider.Types as Types
use dht_spider.Types.{decode_info_hash}
use dht_spider.Web.{hash_of, or_next, hash_of_part, hash_of_parts, parse_infohash}

-- Forty hexadecimal digits, the letters in lower case.
abbrev pub IsHash : Bytes → Type 0
IsHash h = (length h ≡ 40) × All (λ c. (is_hexdigit c ≡ true) × (lower c ≡ c)) h

-- `hex::decode` decodes an even number of hexadecimal digits to half as many bytes.
abbrev pub IsHexDecode : (Bytes → Bytes ⊎ Bytes) → Type 0
IsHexDecode hex_decode =
    (n : ℕ) (s : Bytes)
    → length s ≡ 2 * n
    → all is_hexdigit s ≡ true
    → (b : Bytes) × (hex_decode s ≡ inl b) × (length b ≡ n)

all-lower : (s : Bytes) → all is_hexdigit (map lower s) ≡ all is_hexdigit s
unfolding all
all-lower [] = refl
all-lower (c ∷ s) = rw (is_hexdigit-lower c, all-lower s) refl

digits-All :
    (s : Bytes)
    → all is_hexdigit (map lower s) ≡ true
    → All (λ c. (is_hexdigit c ≡ true) × (lower c ≡ c)) (map lower s)
unfolding all
digits-All [] h = tt
digits-All (c ∷ s) h = ((ground arith, lower_idem c), digits-All s (ground arith))

-- What is found, if it is found, is an info hash.
Finds : Option Bytes → Type 0
Finds none = Unit
Finds (some h) = IsHash h × (all is_hexdigit h ≡ true)

and_cases : (a b : Bool) → a && b ≡ true → (a ≡ true) × (b ≡ true)
and_cases a b h = ground arith

hash_of-Finds : (text : Bytes) → Finds (hash_of text)
unfolding Finds hash_of
hash_of-Finds text =
    elim (Bool-cases (length (map lower text) == 40 && all is_hexdigit (map lower text))) [
      | inl good ↦
          let both =
            and_cases (length (map lower text) == 40) (all is_hexdigit (map lower text)) good in
          rw good (((==_iff (length (map lower text)) 40).0 both.0, digits-All text both.1), both.1)
      | inr bad ↦ rw bad tt
    ]

or_next-Finds : (o next : Option Bytes) → Finds o → Finds next → Finds (or_next o next)
unfolding Finds
or_next-Finds none next h k = k
or_next-Finds (some b) next h k = h

hash_of_part-Finds : (o : Option Bytes) → Finds (hash_of_part o)
unfolding Finds
hash_of_part-Finds none = tt
hash_of_part-Finds (some hash) = hash_of-Finds hash

hash_of_parts-Finds : (parts : List Bytes) → Finds (hash_of_parts parts)
unfolding Finds hash_of_parts
hash_of_parts-Finds [] = tt
hash_of_parts-Finds (part ∷ parts) =
    let o = strip_prefix (codes "xt=urn:btih:") part in
    or_next-Finds (hash_of_part o) (hash_of_parts parts) (hash_of_part-Finds o)
      (hash_of_parts-Finds parts)

parse_infohash-Finds : (input : Bytes) → Finds (parse_infohash input)
unfolding parse_infohash
parse_infohash-Finds input =
    let s = trim input in
    elim (Bool-cases (is_some (strip_prefix (codes "magnet:") s))) [
      | inl e ↦
          rw e (hash_of_parts-Finds (split b'&' (or_else (strip_prefix (codes "magnet:?") s) s)))
      | inr e ↦ rw e (hash_of-Finds s)
    ]

parse_infohash_lem :
    (input h : Bytes) → parse_infohash input ≡ some h → IsHash h × (all is_hexdigit h ≡ true)
unfolding Finds
parse_infohash_lem input h e = subst Finds e (parse_infohash-Finds input)

-- What is read from a search is an info hash of forty lower-case hexadecimal digits, and the node,
-- to which it goes, decodes it to twenty bytes, if `hex::decode` decodes digits as it documents.
pub parse_infohash-IsHash :
    (hex_decode : Bytes → Bytes ⊎ Bytes)
    → IsHexDecode hex_decode
    → (input h : Bytes) → parse_infohash input ≡ some h
    → IsHash h
      × (bytes : Bytes) × (decode_info_hash hex_decode h ≡ Types.ok bytes)
      × (length bytes ≡ 20)
unfolding decode_info_hash
parse_infohash-IsHash hex_decode law input h e =
    let good = parse_infohash_lem input h e in
    let (b, decoded, size) = law 20 h good.0.0 good.1 in
    (good.0, b, rw (good.0.0, decoded, size) refl, size)

hash_of-lower :
    (text : Bytes)
    → length text ≡ 40
    → all is_hexdigit text ≡ true
    → hash_of text ≡ some (map lower text)
unfolding hash_of
hash_of-lower text e h = rw (length-map lower text, e, all-lower text, h) refl

-- The texts of a magnet link.
abbrev pub hash_param : Bytes → Bytes
hash_param hash = codes "xt=urn:btih:" ++ hash

hash_of_parts-lower :
    (before after : List Bytes) (hash : Bytes)
    → All (λ part. strip_prefix (codes "xt=urn:btih:") part ≡ none) before
    → length hash ≡ 40
    → all is_hexdigit hash ≡ true
    → hash_of_parts (before ++ hash_param hash ∷ after) ≡ some (map lower hash)
unfolding hash_of_parts
hash_of_parts-lower [] after hash h e k = rw (hash_of-lower hash e k) refl
hash_of_parts-lower (part ∷ before) after hash h e k =
    rw h.0 (hash_of_parts-lower before after hash h.1 e k)

abbrev pub joined : List Bytes → Bytes
joined [] = []
joined (part ∷ parts) = join b'&' part parts

split-joined :
    (before after : List Bytes) (hash : Bytes)
    → All (Lacks b'&') (before ++ hash_param hash ∷ after)
    → split b'&' (joined (before ++ hash_param hash ∷ after)) ≡ before ++ hash_param hash ∷ after
split-joined [] after hash k = split-join b'&' (hash_param hash) after k.0 k.1
split-joined (part ∷ before) after hash k =
    split-join b'&' part (before ++ hash_param hash ∷ after) k.0 k.1

-- A magnet link in printable ASCII without spaces, whose first parameter that begins with
-- xt=urn:btih: goes on with forty hexadecimal digits, gives these digits with the letters in lower
-- case, whatever the parameters before and behind it are.
pub parse_infohash_magnet :
    (before after : List Bytes) (hash : Bytes)
    → All (λ part. strip_prefix (codes "xt=urn:btih:") part ≡ none) before
    → All (Lacks b'&') (before ++ hash_param hash ∷ after)
    → All IsGraphic (joined (before ++ hash_param hash ∷ after))
    → length hash ≡ 40
    → all is_hexdigit hash ≡ true
    → parse_infohash (codes "magnet:?" ++ joined (before ++ hash_param hash ∷ after))
      ≡ some (map lower hash)
unfolding parse_infohash
parse_infohash_magnet before after hash h k g e d =
    let link = joined (before ++ hash_param hash ∷ after) in
    let trimmed : trim (codes "magnet:?" ++ link) ≡ codes "magnet:?" ++ link =
      trim_lem (codes "magnet:?" ++ link)
        (All-append IsGraphic (codes "magnet:?") link (ground arith) g) in
    rw (trimmed, split-joined before after hash k) (hash_of_parts-lower before after hash h e d)
