-- ===== src/Storage/Tests.antt =====
-- Runs of the table, and the theorems at concrete rows.
use mathlib.Core.Option
use dht_spider.Prelude.{ℕ, ◌≡◌, refl, none, some, List, [], ◌∷◌, Bytes, codes, if◌then◌else◌, arith}
use dht_spider.Std.Decimal.{pos}
use dht_spider.Std.Text.{lower}
use dht_spider.Std.Order.{bytes_eq, bytes_cmp}
use dht_spider.Std.Sort.{place, sort_by}
use dht_spider.Storage.{
  TorrentEntry, replace, pattern_of, filter_ok, list, insert, get_by_infohash, count, db_size,
}
use dht_spider.Storage.Engine.{filter}
use dht_spider.Storage.Like.{begins_with, has, like-pattern_of}
use dht_spider.Storage.Memory.{like, like-IsLike, engine, engine_IsSqlite}
use dht_spider.Storage.Rows.{or_new, get_by_infohash-insert}

program : Unit {0}
unfolding lower bytes_eq bytes_cmp place sort_by replace pattern_of filter_ok list insert
    get_by_infohash count db_size filter begins_with has like
program = tt

abbrev row : Bytes → ℕ → TorrentEntry
row name at = record { infohash = name; name = name; files = codes "[]"; created_at = pos at }

abbrev rows : List TorrentEntry
rows = row (codes "Debian 12") 5 ∷ row (codes "100% free") 9 ∷ row (codes "DEBIAN a_b") 7 ∷ []

-- The newest come first, two on a page.
page_runs :
    list engine 1 2 [] rows ≡ some (row (codes "100% free") 9 ∷ row (codes "DEBIAN a_b") 7 ∷ [], 3)
unfolding program engine
page_runs = refl

last_page_runs : list engine 2 2 [] rows ≡ some (row (codes "Debian 12") 5 ∷ [], 3)
unfolding program engine
last_page_runs = refl

search_runs :
    list engine 1 9 (codes "debian") rows
    ≡ some (row (codes "DEBIAN a_b") 7 ∷ row (codes "Debian 12") 5 ∷ [], 2)
unfolding program engine
search_runs = refl

percent_runs : list engine 1 9 (codes "%") rows ≡ some (row (codes "100% free") 9 ∷ [], 1)
unfolding program engine
percent_runs = refl

-- A backslash of the search is an escape character of the pattern.
backslash_runs :
    list engine 1 9 (codes "debian\\ 12") rows ≡ some (row (codes "Debian 12") 5 ∷ [], 1)
unfolding program engine
backslash_runs = refl

size_runs :
    db_size (λ path. if bytes_eq path (codes "t.db-shm") then none else some 7) (codes "t.db") ≡ 14
unfolding program
size_runs = refl

like-pattern_of_example :
    like (pattern_of (codes "a_B")) (codes "xA_b") ≡ has (codes "a_B") (codes "xA_b")
like-pattern_of_example =
    like-pattern_of like like-IsLike (codes "a_B") (codes "xA_b") (ground arith) (ground arith)

-- The first entry of an infohash stays.
get_by_infohash-insert_example : get_by_infohash engine (codes "Debian 12") rows ≡ (
    if bytes_eq (codes "Debian 12") (codes "Debian 12")
    then Option.map
        (λ old. some (
          or_new old (record {
            infohash = codes "Debian 12";
            name = codes "other";
            files = [];
            created_at = pos 8;
          })))
        (get_by_infohash engine (codes "Debian 12") rows)
    else get_by_infohash engine (codes "Debian 12") rows)
unfolding program engine engine_IsSqlite
get_by_infohash-insert_example =
    get_by_infohash-insert engine like engine_IsSqlite (pos 8) (codes "Debian 12") (codes "other")
      [] (codes "Debian 12") rows rows (omega arith) (omega arith) refl
