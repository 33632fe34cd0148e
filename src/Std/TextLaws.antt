-- ===== src/Std/TextLaws.antt =====
-- Laws of the text functions: splitting what was joined, and trimming a text without white space.
use dht_spider.Prelude.{
  ℕ, ◌≤◌, ◌≡◌, refl, ap, ◌∙◌, false, some, List, [], ◌∷◌, ◌++◌, Bytes, All, ◌==◌, arith,
}
use dht_spider.Std.Text.{
  lower, is_hexdigit, strip_prefix, split, is_space, is_space2, is_space3, trim_start,
  trim_reversed, reverse_onto, trim,
}

-- Printable ASCII but the space.
abbrev pub IsGraphic : ℕ → Type 0
IsGraphic c = (33 ≤ c) × (c ≤ 126)

pub lower_idem : (c : ℕ) → lower (lower c) ≡ lower c
unfolding lower
lower_idem c = ground arith

pub is_hexdigit-lower : (c : ℕ) → is_hexdigit (lower c) ≡ is_hexdigit c
unfolding lower is_hexdigit
is_hexdigit-lower c = ground arith

-- The parts with a byte between any two.
unfoldable pub join : ℕ → Bytes → List Bytes → Bytes
join c part [] = part
join c part (next ∷ parts) = part ++ c ∷ join c next parts

abbrev pub Lacks : ℕ → Bytes → Type 0
Lacks c part = All (λ b. (b == c) ≡ false) part

split_part : (c : ℕ) (part : Bytes) → Lacks c part → split c part ≡ part ∷ []
unfolding split
split_part c [] h = refl
split_part c (b ∷ part) h = rw (h.0, split_part c part h.1) refl

split-append : (c : ℕ) (part s : Bytes) → Lacks c part → split c (part ++ c ∷ s) ≡ part ∷ split c s
unfolding split
split-append c [] s h = ground arith
split-append c (b ∷ part) s h = rw (h.0, split-append c part s h.1) refl

pub split-join :
    (c : ℕ) (part : Bytes) (parts : List Bytes)
    → Lacks c part
    → All (Lacks c) parts
    → split c (join c part parts) ≡ part ∷ parts
unfolding join
split-join c part [] h k = split_part c part h
split-join c part (next ∷ parts) h k =
    split-append c part (join c next parts) h ∙ ap (◌∷◌ part) (split-join c next parts k.0 k.1)

pub strip_prefix-append : (prefix s : Bytes) → strip_prefix prefix (prefix ++ s) ≡ some s
unfolding strip_prefix
strip_prefix-append [] s = refl
strip_prefix-append (c ∷ prefix) s = let ih = strip_prefix-append prefix s in ground arith

not_space : (c : ℕ) → IsGraphic c → is_space c ≡ false
unfolding is_space
not_space c h = ground arith

not_space2 : (a b : ℕ) → IsGraphic a → is_space2 a b ≡ false
not_space2 a b h = ground arith

not_space3 : (a b c : ℕ) → IsGraphic a → is_space3 a b c ≡ false
not_space3 a b c h = ground arith

trim_start_lem : (s : Bytes) → All IsGraphic s → trim_start s ≡ s
unfolding trim_start
trim_start_lem [] h = refl
trim_start_lem (a ∷ []) h = rw (not_space a h.0) refl
trim_start_lem (a ∷ b ∷ []) h = rw (not_space a h.0, not_space2 a b h.0) refl
trim_start_lem (a ∷ b ∷ c ∷ s) h =
    rw (not_space a h.0, not_space2 a b h.0, not_space3 a b c h.0) refl

not_space2' : (a b : ℕ) → IsGraphic b → is_space2 a b ≡ false
not_space2' a b h = ground arith

not_space3' : (a b c : ℕ) → IsGraphic c → is_space3 a b c ≡ false
not_space3' a b c h = ground arith

trim_reversed_lem : (s : Bytes) → All IsGraphic s → trim_reversed s ≡ s
unfolding trim_reversed
trim_reversed_lem [] h = refl
trim_reversed_lem (a ∷ []) h = rw (not_space a h.0) refl
trim_reversed_lem (a ∷ b ∷ []) h = rw (not_space a h.0, not_space2' b a h.0) refl
trim_reversed_lem (a ∷ b ∷ c ∷ s) h =
    rw (not_space a h.0, not_space2' b a h.0, not_space3' c b a h.0) refl

reverse_onto-All :
    (s out : Bytes) → All IsGraphic s → All IsGraphic out → All IsGraphic (reverse_onto s out)
unfolding reverse_onto
reverse_onto-All [] out h k = k
reverse_onto-All (b ∷ s) out h k = reverse_onto-All s (b ∷ out) h.1 (h.0, k)

reverse_onto-reverse_onto :
    (s out : Bytes) → reverse_onto (reverse_onto s out) [] ≡ reverse_onto out s
unfolding reverse_onto
reverse_onto-reverse_onto [] out = refl
reverse_onto-reverse_onto (b ∷ s) out = reverse_onto-reverse_onto s (b ∷ out)

reverse_onto_nil : (s : Bytes) → reverse_onto [] s ≡ s
unfolding reverse_onto
reverse_onto_nil s = refl

pub trim_lem : (s : Bytes) → All IsGraphic s → trim s ≡ s
unfolding trim
trim_lem s h =
    rw (trim_start_lem s h, trim_reversed_lem (reverse_onto s []) (reverse_onto-All s [] h tt))
      (reverse_onto-reverse_onto s [] ∙ reverse_onto_nil s)
