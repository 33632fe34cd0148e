-- ===== src/Storage/Like.antt =====
-- The search of src/storage.rs: the pattern that `list` builds against a plain search for a
-- substring.
use dht_spider.Prelude.{
  ℕ, ◌≡◌, ◌≢◌, refl, ◌∙◌, Bool, true, false, ◌&&◌, ◌||◌, [], ◌∷◌, ◌++◌, Bytes, All, codes, ◌==◌,
  if◌then◌else◌, Bool-cases, inl, inr, arith,
}
use dht_spider.Storage.{replace, pattern_of}
use dht_spider.Storage.Engine.{IsLike}
use dht_spider.Std.Text.{lower}

-- Neither NUL nor the escape character.
abbrev pub IsPlain : ℕ → Type 0
IsPlain c = (c ≢ 0) × (c ≢ b'\\')

abbrev pub IsText : Bytes → Type 0
IsText s = All (λ d. d ≢ 0) s

-- The text begins with the search, in whatever ASCII case; and it has the search somewhere.
unfoldable pub begins_with : Bytes → Bytes → Bool
unfolding lower
begins_with [] s = true
begins_with (c ∷ wanted) [] = false
begins_with (c ∷ wanted) (d ∷ s) = lower c == lower d && begins_with wanted s

unfoldable pub has : Bytes → Bytes → Bool
unfolding begins_with
has wanted [] = begins_with wanted []
has wanted (d ∷ s) = begins_with wanted (d ∷ s) || has wanted s

escaped : Bytes → Bytes
escaped wanted = replace b'_' (codes "\\_") (replace b'%' (codes "\\%") wanted)

escaped_nil : escaped [] ≡ []
unfolding escaped replace
escaped_nil = refl

-- The two replacements at one character.
escaped_lem :
    (c : ℕ) (wanted : Bytes)
    → escaped (c ∷ wanted)
      ≡ (if c == b'%' || c == b'_' then b'\\' ∷ c ∷ escaped wanted else c ∷ escaped wanted)
unfolding escaped replace
escaped_lem c wanted = ground arith

module _ (like : Bytes → Bytes → Bool) (laws : IsLike like) where
  like-any : (s : Bytes) → IsText s → like (b'%' ∷ []) s ≡ true
  like-any [] h = laws.any_at_end [] ∙ laws.end
  like-any (d ∷ s) h = let ih = like-any s h.1 in ground (arith, laws.any [] d s h.0)

  like-escaped :
      (wanted s : Bytes)
      → All IsPlain wanted
      → IsText s
      → like (escaped wanted ++ b'%' ∷ []) s ≡ begins_with wanted s
  unfolding begins_with
  like-escaped [] s h k = rw escaped_nil (like-any s k)
  like-escaped (c ∷ wanted) [] h k = elim (Bool-cases (c == b'%' || c == b'_')) [
    | inl e ↦
        rw (escaped_lem c wanted, e) (laws.escaped_at_end c (escaped wanted ++ b'%' ∷ []) h.0.0)
    | inr e ↦
        rw (escaped_lem c wanted, e)
          (laws.plain_at_end c (escaped wanted ++ b'%' ∷ []) h.0.0 (ground arith) (ground arith)
            h.0.1)
  ]
  like-escaped (c ∷ wanted) (d ∷ s) h k =
      let ih = like-escaped wanted s h.1 k.1 in
      elim (Bool-cases (c == b'%' || c == b'_')) [
        | inl e ↦
            rw
              (
                escaped_lem c wanted,
                e,
                laws.escaped c (escaped wanted ++ b'%' ∷ []) d s h.0.0 k.0,
                ih,
              )
              refl
        | inr e ↦
            rw
              (
                escaped_lem c wanted,
                e,
                laws.plain c (escaped wanted ++ b'%' ∷ []) d s h.0.0 k.0 (ground arith)
                    (ground arith) h.0.1,
                ih,
              )
              refl
      ]

  -- The pattern of a search without a backslash or NUL matches the names, these without NUL, that
  -- have the search as a substring, ASCII letters in either case.
  pub like-pattern_of :
      (wanted s : Bytes) → All IsPlain wanted → IsText s → like (pattern_of wanted) s ≡ has wanted s
  unfolding pattern_of has escaped
  like-pattern_of wanted [] h k =
      laws.any_at_end (escaped wanted ++ b'%' ∷ []) ∙ like-escaped wanted [] h k
  like-pattern_of wanted (d ∷ s) h k =
      laws.any (escaped wanted ++ b'%' ∷ []) d s k.0
      ∙ rw (like-escaped wanted (d ∷ s) h k, like-pattern_of wanted s h k.1) refl
