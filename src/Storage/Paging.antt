-- ===== src/Storage/Paging.antt =====
-- The pages of `list` of src/storage.rs against the whole result of the search.
use native.Mathlib.Nat.{mul-le-mul_right, suc-mul, mod-eq_of_lt}
use dht_spider.Prelude.{
  ℕ, zero, suc, ◌+◌, ◌-◌, ◌*◌, ◌^◌, ◌≤◌, ◌<◌, ◌≡◌, refl, sym, ap, Bool, true, Option, some, List,
  [], ◌∷◌, ◌++◌, Bytes, All, length, take, drop, map, subst, arith,
}
use dht_spider.Bitmap.{◌>>=◌}
use dht_spider.Storage.{TorrentEntry, Sqlite, filter_ok, list, offset, pattern_of}
use dht_spider.Storage.Engine.{IsLike, IsSqlite, filter, no_older, max_pattern}
use dht_spider.Storage.Order.{HasDistinctTimes, Shows-sort_by}
use dht_spider.Std.Sort.{sort_by, length-sort_by}
use dht_spider.Storage.Like.{IsPlain, IsText, has, like-pattern_of}

-- The name has the search in it.
abbrev pub is_wanted : Bytes → TorrentEntry → Bool
is_wanted wanted e = has wanted e.name

HasText : TorrentEntry → Type 0
HasText e = IsText e.name

pub filter_ok-map : (es : List TorrentEntry) → filter_ok (map some es) ≡ es
unfolding filter_ok
filter_ok-map [] = refl
filter_ok-map (e ∷ es) = ap (◌∷◌ e) (filter_ok-map es)

filter-cong {ℓ} :
    {A : Type ℓ} (p q : A → Bool) (xs : List A)
    → All (λ x. p x ≡ q x) xs
    → filter p xs ≡ filter q xs
unfolding filter
filter-cong p q [] h = refl
filter-cong p q (x ∷ xs) h = rw (h.0, filter-cong p q xs h.1) refl

filter-true {ℓ} :
    {A : Type ℓ} (p : A → Bool) (xs : List A) → ((x : A) → p x ≡ true) → filter p xs ≡ xs
unfolding filter
filter-true p [] h = refl
filter-true p (x ∷ xs) h = rw (h x) (ap (◌∷◌ x) (filter-true p xs h))

has_nil : (s : Bytes) → has [] s ≡ true
unfolding has
has_nil [] = refl
has_nil (d ∷ s) = refl

take_add {ℓ} :
    {A : Type ℓ} (a b : ℕ) (xs : List A) → take (a + b) xs ≡ take a xs ++ take b (drop a xs)
take_add zero b xs = let e : 0 + b ≡ b = omega arith in rw e refl
take_add (suc a) zero [] = let e : suc a + 0 ≡ suc a = omega arith in rw e refl
take_add (suc a) (suc b) [] = let e : suc a + suc b ≡ suc (a + suc b) = omega arith in rw e refl
take_add (suc a) b (x ∷ xs) =
    let e : suc a + b ≡ suc (a + b) = omega arith in rw e (ap (◌∷◌ x) (take_add a b xs))

-- The rows that are wanted, the newest first.
abbrev pub shown : Bytes → List TorrentEntry → List TorrentEntry
shown wanted rows = sort_by no_older (filter (is_wanted wanted) rows)

module _ {ℓ} {S : Type ℓ} (db : Sqlite S) where
  -- The pages up to a number, one after the other.
  unfoldable pub pages : ℕ → Bytes → S → ℕ → Option (List TorrentEntry)
  pages page_size wanted s zero = some []
  pages page_size wanted s (suc n) = do
    front ← pages page_size wanted s n
    (entries, total) ← list db (suc n) page_size wanted s
    some (front ++ entries)

module _ {ℓ} {S : Type ℓ} (db : Sqlite S) (like : Bytes → Bytes → Bool) (is_like : IsLike like)
    (laws : IsSqlite db like) where
  filter-like :
      (wanted : Bytes) (rows : List TorrentEntry)
      → All IsPlain wanted
      → All HasText rows
      → filter (λ e. like (pattern_of wanted) e.name) rows ≡ filter (is_wanted wanted) rows
  unfolding HasText filter
  filter-like wanted [] h k = refl
  filter-like wanted (e ∷ rows) h k =
      rw (like-pattern_of like is_like wanted e.name h k.0, filter-like wanted rows h k.1) refl

  -- A page is what the search finds, from the page's offset on, with the number of all that it
  -- finds.
  pub list-shown :
      (page page_size : ℕ) (wanted : Bytes) (s : S)
      → laws.IsReadable s
      → All IsPlain wanted
      → length (pattern_of wanted) ≤ max_pattern
      → All (λ (e : TorrentEntry). IsText e.name) (laws.rows s)
      → HasDistinctTimes (shown wanted (laws.rows s))
      → list db page page_size wanted s
        ≡ some (
          take page_size (drop (offset page page_size) (shown wanted (laws.rows s))),
          length (shown wanted (laws.rows s)),
        )
  unfolding list HasText
  list-shown page page_size [] s r h l k d =
      let all : filter (is_wanted []) (laws.rows s) ≡ laws.rows s =
        filter-true (is_wanted []) (laws.rows s) (λ e. has_nil e.name) in
      let off = offset page page_size in
      let found =
        Shows-sort_by page_size off (laws.rows s) (db.select_all page_size off s) (rw all at d)
          (laws.select_all_lem page_size off s r) in
      rw
        (
          laws.count_all_lem s r,
          found,
          ◌>>=◌,
          filter_ok-map (take page_size (drop off (sort_by no_older (laws.rows s)))),
          all,
          length-sort_by no_older (laws.rows s),
        )
        refl
  list-shown page page_size (b ∷ wanted) s r h l k d =
      let p = pattern_of (b ∷ wanted) in
      let rows = filter (is_wanted (b ∷ wanted)) (laws.rows s) in
      let alike : filter (λ e. like p e.name) (laws.rows s) ≡ rows =
        filter-like (b ∷ wanted) (laws.rows s) h k in
      let off = offset page page_size in
      let found =
        Shows-sort_by page_size off rows (db.select_like p page_size off s) d
          (rw alike at (laws.select_like_lem p page_size off s r l)) in
      rw
        (
          laws.count_like_lem p s r l,
          found,
          alike,
          ◌>>=◌,
          filter_ok-map (take page_size (drop off (sort_by no_older rows))),
          length-sort_by no_older rows,
        )
        refl

  -- The entries of the first pages, one after the other, are the first of all that the search
  -- finds.
  pub pages-shown :
      (page_size : ℕ) (wanted : Bytes) (s : S) (n : ℕ)
      → laws.IsReadable s
      → All IsPlain wanted
      → length (pattern_of wanted) ≤ max_pattern
      → All (λ (e : TorrentEntry). IsText e.name) (laws.rows s)
      → HasDistinctTimes (shown wanted (laws.rows s))
      → (n - 1) * page_size < 2 ^ 32
      → pages db page_size wanted s n ≡ some (take (n * page_size) (shown wanted (laws.rows s)))
  unfolding pages
  pages-shown page_size wanted s zero r h l k d b =
      let e : 0 * page_size ≡ 0 = omega arith in rw e refl
  pages-shown page_size wanted s (suc n) r h l k d b =
      let small : (n - 1) * page_size < 2 ^ 32 =
        let le : n - 1 ≤ suc n - 1 = omega arith in
        let m = mul-le-mul_right page_size le in omega arith in
      let ih = pages-shown page_size wanted s n r h l k d small in
      let one : suc n - 1 ≡ n = omega arith in
      let off : offset (suc n) page_size ≡ n * page_size =
        rw one (mod-eq_of_lt (subst (λ m. m * page_size < 2 ^ 32) one b)) in
      let next : take (n * page_size) (shown wanted (laws.rows s))
            ++ take page_size (drop (offset (suc n) page_size) (shown wanted (laws.rows s)))
          ≡ take (suc n * page_size) (shown wanted (laws.rows s)) =
        rw (off, suc-mul n page_size)
          (sym (take_add (n * page_size) page_size (shown wanted (laws.rows s)))) in
      rw (ih, list-shown (suc n) page_size wanted s r h l k d, ◌>>=◌) (ap some next)
