-- ===== src/Web/Pages.antt =====
-- The pages of `api_torrents` of src/web.rs: they show every row once.
use mathlib.Core.List.{Perm}
use mathlib.Core.Option
use native.Mathlib.Nat.{mul-le-mul_right, div-mul-le_self, lt-div-mul-add}
use dht_spider.Prelude.{
  take_all, map-append, ℕ, zero, suc, ◌+◌, ◌-◌, ◌*◌, ◌%◌, ◌^◌, ◌≤◌, ◌<◌, ◌≡◌, refl, sym, ap, ◌∙◌,
  Bool, Option, none, some, List, [], ◌++◌, Bytes, All, length, map, arith,
}
use dht_spider.Bitmap.{◌>>=◌}
use dht_spider.Storage as Storage
use dht_spider.Storage.{TorrentEntry, Sqlite, pattern_of}
use dht_spider.Storage.Engine.{IsLike, IsSqlite, filter, no_older, max_pattern}
use dht_spider.Storage.Order.{HasDistinctTimes, sort_by-no_older}
use dht_spider.Std.Sort.{IsSorted, sort_by-Perm}
use dht_spider.Storage.Like.{IsPlain, IsText}
use dht_spider.Storage.Paging.{pages, shown, is_wanted, pages-shown}
use dht_spider.Web.{
  ListQuery, SerdeJson, Row, Answer, torrents, stats, found, searching, pending, invalid,
  database_error, unauthorized, authorized, row_of, torrents_answer, total_pages_of, page_of,
  page_size_of, api_torrents,
}

-- What is left over behind the last page is less than a page.
total_pages_lem :
    (total page_size : ℕ)
    → 1 ≤ page_size
    → total + page_size ≤ 2 ^ 32
    → (total ≤ total_pages_of total page_size * page_size)
      × (total_pages_of total page_size * page_size < 2 ^ 32)
total_pages_lem total page_size p h =
    let a = total + page_size - 1 in
    let wraps : (total + page_size + 2 ^ 32 - 1) % 2 ^ 32 ≡ total + page_size - 1 = omega arith in
    let above = lt-div-mul-add {a = total + page_size - 1} {b = page_size} (omega arith) in
    let below = div-mul-le_self (total + page_size - 1) page_size in
    rw wraps (omega arith, omega arith)

-- The rows of an answer.
abbrev rows_of : {V : Type 0} → Answer V → Option (List (Row V))
rows_of (torrents rows total page page_size total_pages) = some rows
rows_of (stats total size) = none
rows_of (found infohash name files total_size created_at) = none
rows_of (searching ih) = none
rows_of pending = none
rows_of invalid = none
rows_of database_error = none
rows_of unauthorized = none
rows_of authorized = none

abbrev query_of : ℕ → ℕ → Bytes → ListQuery
query_of page page_size wanted = record {
  page = some page;
  page_size = some page_size;
  search = some wanted;
}

module _ {ℓ} {V : Type 0} (json : SerdeJson V) {S : Type ℓ} (db : Sqlite S) where
  -- The rows of the answers for the pages up to a number, one after the other.
  unfoldable pub web_pages : ℕ → Bytes → S → ℕ → Option (List (Row V))
  web_pages page_size wanted s zero = some []
  web_pages page_size wanted s (suc n) = do
    front ← web_pages page_size wanted s n
    rows ← rows_of (api_torrents json db (query_of (suc n) page_size wanted) s)
    some (front ++ rows)

  rows_of-answer :
      (page page_size : ℕ) (front : Option (List TorrentEntry)) (r : Option (List TorrentEntry × ℕ))
      → (Option.map (map (row_of json)) front >>= λ fs.
          rows_of (torrents_answer json page page_size r) >>= λ rows. some (fs ++ rows))
        ≡ Option.map (map (row_of json)) (front >>= λ fs. r >>= λ (es, total). some (fs ++ es))
  rows_of-answer page page_size none r = refl
  rows_of-answer page page_size (some fs) none = refl
  rows_of-answer page page_size (some fs) (some (es, total)) =
      ap some (sym (map-append (row_of json) fs es))

  web_pages-pages :
      (page_size : ℕ) (wanted : Bytes) (s : S) (n : ℕ)
      → 1 ≤ page_size
      → page_size ≤ 200
      → web_pages page_size wanted s n
        ≡ Option.map (map (row_of json)) (pages db page_size wanted s n)
  unfolding web_pages pages api_torrents
  web_pages-pages page_size wanted s zero a b = refl
  web_pages-pages page_size wanted s (suc n) a b =
      let page : page_of (query_of (suc n) page_size wanted) ≡ suc n = omega arith in
      let size : page_size_of (query_of (suc n) page_size wanted) ≡ page_size = omega arith in
      rw (web_pages-pages page_size wanted s n a b, page, size)
        (rows_of-answer (suc n) page_size (pages db page_size wanted s n)
          (Storage.list db (suc n) page_size wanted s))

module _ {ℓ} {V : Type 0} (json : SerdeJson V) {S : Type ℓ} (db : Sqlite S)
    (like : Bytes → Bytes → Bool) (is_like : IsLike like) (laws : IsSqlite db like) where
  pub web_pages-shown :
      (page_size : ℕ) (wanted : Bytes) (s : S)
      → laws.IsReadable s
      → All IsPlain wanted
      → length (pattern_of wanted) ≤ max_pattern
      → All (λ (e : TorrentEntry). IsText e.name) (laws.rows s)
      → HasDistinctTimes (shown wanted (laws.rows s))
      → 1 ≤ page_size
      → page_size ≤ 200
      → length (shown wanted (laws.rows s)) + page_size ≤ 2 ^ 32
      → let es = shown wanted (laws.rows s) in
        (web_pages json db page_size wanted s (total_pages_of (length es) page_size)
          ≡ some (map (row_of json) es))
        × Perm es (filter (is_wanted wanted) (laws.rows s))
        × IsSorted no_older es
  web_pages-shown page_size wanted s r h l k d a b c =
      let es = shown wanted (laws.rows s) in
      let n = total_pages_of (length es) page_size in
      let bounds = total_pages_lem (length es) page_size a c in
      let small : (n - 1) * page_size < 2 ^ 32 =
        let m = mul-le-mul_right {m = n - 1} {n = n} page_size (omega arith) in
        omega (arith, bounds.1) in
      (
        web_pages-pages json db page_size wanted s n a b
            ∙ rw
                (
                  pages-shown db like is_like laws page_size wanted s n r h l k d small,
                  take_all (n * page_size) es bounds.0,
                )
                refl,
        sort_by-Perm no_older (filter (is_wanted wanted) (laws.rows s)),
        sort_by-no_older (filter (is_wanted wanted) (laws.rows s)),
      )
