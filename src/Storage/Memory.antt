-- ===== src/Storage/Memory.antt =====
-- An engine that keeps the rows in memory, as SQLite documents its statements, for runs of the
-- code.
use dht_spider.Prelude.{
  ℕ, ◌-◌, ◌≡◌, ◌≢◌, refl, sym, ap, Bool, true, false, ◌&&◌, ◌||◌, none, some, List, [], ◌∷◌, Bytes,
  length, take, drop, map, ltb, ◌==◌, if◌then◌else◌, arith, ◌^◌, ◌<◌,
}
use dht_spider.Std.Text.{lower}
use dht_spider.Std.Sort.{sort_by, sort_by-Perm}
use dht_spider.Storage.{TorrentEntry, Sqlite}
use dht_spider.Storage.Engine.{IsLike, IsSqlite, filter, no_older, has_infohash, added, Shows}
use dht_spider.Storage.Order.{sort_by-no_older}

-- `LIKE .. ESCAPE '\'`
any_suffix : (Bytes → Bool) → Bytes → Bool
any_suffix f [] = f []
any_suffix f (d ∷ s) = f (d ∷ s) || any_suffix f s

abbrev one_like : ℕ → (Bytes → Bool) → Bytes → Bool
one_like c f [] = false
one_like c f (d ∷ s) = lower c == lower d && f s

abbrev any_one : (Bytes → Bool) → Bytes → Bool
any_one f [] = false
any_one f (d ∷ s) = f s

abbrev is_empty : Bytes → Bool
is_empty [] = true
is_empty (d ∷ s) = false

unfoldable pub like : Bytes → Bytes → Bool
unfolding any_suffix lower
like [] = is_empty
like (x ∷ []) =
    if x == b'%'
    then any_suffix is_empty
    else if x == b'_'
    then any_one is_empty
    else one_like x is_empty
like (x ∷ c ∷ p) =
    let behind = like p in
    let rest = like (c ∷ p) in
    if x == b'%'
    then any_suffix rest
    else if x == b'_'
    then any_one rest
    else if x == b'\\'
    then one_like c behind
    else one_like x rest

like-any_at_end : (p : Bytes) → like (b'%' ∷ p) [] ≡ like p []
unfolding like any_suffix
like-any_at_end [] = refl
like-any_at_end (c ∷ p) = refl

like-any :
    (p : Bytes) (d : ℕ) (s : Bytes)
    → like (b'%' ∷ p) (d ∷ s) ≡ (like p (d ∷ s) || like (b'%' ∷ p) s)
unfolding like any_suffix
like-any [] d s = refl
like-any (c ∷ p) d s = refl

like-plain :
    (c : ℕ) (p : Bytes) → c ≢ b'%' → c ≢ b'_' → c ≢ b'\\' → like (c ∷ p) ≡ one_like c (like p)
unfolding like any_suffix
like-plain c [] a b e =
    let any : (c == b'%') ≡ false = ground arith in
    let one : (c == b'_') ≡ false = ground arith in rw (any, one) refl
like-plain c (x ∷ p) a b e =
    let any : (c == b'%') ≡ false = ground arith in
    let one : (c == b'_') ≡ false = ground arith in
    let escape : (c == b'\\') ≡ false = ground arith in rw (any, one, escape) refl

pub like-IsLike : IsLike like
unfolding like any_suffix
like-IsLike = record {
  end = refl;
  any_at_end = like-any_at_end;
  any = λ p d s h. like-any p d s;
  escaped_at_end = λ c p h. refl;
  escaped = λ c p d s h k. refl;
  plain_at_end = λ c p h a b e. ap (λ f. f []) (like-plain c p a b e);
  plain = λ c p d s h k a b e. ap (λ f. f (d ∷ s)) (like-plain c p a b e);
}

-- The rows are the state.
unfoldable pub engine : Sqlite (List TorrentEntry)
unfolding like filter sort_by
engine = record {
  count_all = λ s. some (length s);
  count_like = λ p s. some (length (filter (λ e. like p e.name) s));
  select_all = λ n off s. some (map some (take n (drop off (sort_by no_older s))));
  select_like = λ p n off s.
      some (map some (take n (drop off (sort_by no_older (filter (λ e. like p e.name) s)))));
  select_infohash = λ infohash s. some (map some (filter (has_infohash infohash) s));
  insert_or_ignore = λ now infohash name files s.
      if ltb (length s) (2 ^ 32 - 1)
      then some (
          added (record { infohash = infohash; name = name; files = files; created_at = now }) s
            (filter (has_infohash infohash) s))
      else none;
}

sort_by-Shows :
    (n off : ℕ) (es : List TorrentEntry)
    → Shows n off es (some (map some (take n (drop off (sort_by no_older es)))))
sort_by-Shows n off es = (sort_by no_older es, sort_by-Perm no_older es, sort_by-no_older es, refl)

if_some : {A : Type 0} (b : Bool) (x y : A) → (if b then some x else none) ≡ some y → x ≡ y
if_some true x y h = cc
if_some false x y h = cc

unfoldable pub engine_IsSqlite : IsSqlite engine like
unfolding engine if_some sort_by-Shows
engine_IsSqlite = record {
  rows = λ s. s;
  IsReadable = λ s. length s < 2 ^ 32;
  length-IsReadable = λ s h. h;
  count_all_lem = λ s h. refl;
  count_like_lem = λ p s h k. refl;
  select_all_lem = λ n off s h. sort_by-Shows n off s;
  select_like_lem = λ p n off s h k. sort_by-Shows n off (filter (λ e. like p e.name) s);
  select_infohash_lem = λ infohash s h. refl;
  insert_or_ignore_lem = λ now infohash name files s s' h. sym (
      if_some (ltb (length s) (2 ^ 32 - 1))
        (added (record { infohash = infohash; name = name; files = files; created_at = now }) s
          (filter (has_infohash infohash) s))
        s' h);
}
