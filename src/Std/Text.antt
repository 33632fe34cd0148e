-- ===== src/Std/Text.antt =====
-- Texts as their bytes: what the program uses of `str` besides comparisons. The patterns are ASCII.
use dht_spider.Prelude.{
  ℕ, ◌+◌, Bool, true, false, ◌&&◌, ◌||◌, Option, none, some, List, [], ◌∷◌, Bytes, leb, ◌==◌,
  if◌then◌else◌,
}

-- `to_ascii_lowercase` of a byte
unfoldable pub lower : ℕ → ℕ
lower c = if leb b'A' c && leb c b'Z' then c + 32 else c

-- `is_ascii_hexdigit`
unfoldable pub is_hexdigit : ℕ → Bool
is_hexdigit c = leb b'0' c && leb c b'9' || leb b'A' c && leb c b'F' || leb b'a' c && leb c b'f'

unfoldable pub all {ℓ} : {A : Type ℓ} → (A → Bool) → List A → Bool
all p [] = true
all p (x ∷ xs) = p x && all p xs

unfoldable pub strip_prefix : Bytes → Bytes → Option Bytes
strip_prefix [] s = some s
strip_prefix (c ∷ prefix) [] = none
strip_prefix (c ∷ prefix) (b ∷ s) =
    let rest = strip_prefix prefix s in if c == b then rest else none

abbrev pub is_some {ℓ} : {A : Type ℓ} → Option A → Bool
is_some none = false
is_some (some a) = true

abbrev pub or_else {ℓ} : {A : Type ℓ} → Option A → A → A
or_else none a = a
or_else (some b) a = b

-- A byte in front of the first part.
abbrev pub in_front : ℕ → List Bytes → List Bytes
in_front b [] = (b ∷ []) ∷ []
in_front b (part ∷ parts) = (b ∷ part) ∷ parts

-- `split`, which gives at least one part
unfoldable pub split : ℕ → Bytes → List Bytes
split c [] = [] ∷ []
split c (b ∷ s) = let rest = split c s in if b == c then [] ∷ rest else in_front b rest

unfoldable pub is_space : ℕ → Bool
is_space c = leb 9 c && leb c 13 || c == 32

-- U+0085 and U+00A0
abbrev pub is_space2 : ℕ → ℕ → Bool
is_space2 a b = a == 0xc2 && (b == 0x85 || b == 0xa0)

-- U+1680, U+2000 to U+200A, U+2028, U+2029, U+202F, U+205F and U+3000
abbrev pub is_space3 : ℕ → ℕ → ℕ → Bool
is_space3 a b c =
    a == 0xe1 && b == 0x9a && c == 0x80
    || a == 0xe2 && b == 0x80 && (leb 0x80 c && leb c 0x8a || c == 0xa8 || c == 0xa9 || c == 0xaf)
    || a == 0xe2 && b == 0x81 && c == 0x9f
    || a == 0xe3 && b == 0x80 && c == 0x80

-- `trim_start`: without the white space in front.
unfoldable pub trim_start : Bytes → Bytes
unfolding is_space
trim_start [] = []
trim_start (a ∷ []) = if is_space a then [] else a ∷ []
trim_start (a ∷ b ∷ []) =
    let one = trim_start (b ∷ []) in
    if is_space a then one else if is_space2 a b then [] else a ∷ b ∷ []
trim_start (a ∷ b ∷ c ∷ s) =
    let one = trim_start (b ∷ c ∷ s) in
    let two = trim_start (c ∷ s) in
    let three = trim_start s in
    if is_space a
    then one
    else if is_space2 a b
    then two
    else if is_space3 a b c
    then three
    else a ∷ b ∷ c ∷ s

-- The same for a text from its end to its beginning.
unfoldable pub trim_reversed : Bytes → Bytes
unfolding is_space
trim_reversed [] = []
trim_reversed (a ∷ []) = if is_space a then [] else a ∷ []
trim_reversed (a ∷ b ∷ []) =
    let one = trim_reversed (b ∷ []) in
    if is_space a then one else if is_space2 b a then [] else a ∷ b ∷ []
trim_reversed (a ∷ b ∷ c ∷ s) =
    let one = trim_reversed (b ∷ c ∷ s) in
    let two = trim_reversed (c ∷ s) in
    let three = trim_reversed s in
    if is_space a
    then one
    else if is_space2 b a
    then two
    else if is_space3 c b a
    then three
    else a ∷ b ∷ c ∷ s

unfoldable pub reverse_onto : Bytes → Bytes → Bytes
reverse_onto [] out = out
reverse_onto (b ∷ s) out = reverse_onto s (b ∷ out)

unfoldable pub trim : Bytes → Bytes
unfolding trim_start trim_reversed reverse_onto
trim s = reverse_onto (trim_reversed (reverse_onto (trim_start s) [])) []
