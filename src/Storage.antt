-- ===== src/Storage.antt =====
-- src/storage.rs: the table of torrents. The statements that the file sends to SQLite are
-- operations of a parameter, the engine, which takes the state of the database file; the lock
-- around the connection makes each of them one step. The clock, which the engine reads for the
-- column `created_at`, is an argument.
pub mod Engine
pub mod Order
pub mod Like
pub mod Paging
pub mod Rows
pub mod Memory
mod Tests
use dht_spider.Prelude.{
  ℕ, ◌+◌, ◌-◌, ◌*◌, ◌%◌, ◌^◌, Option, none, some, List, [], ◌∷◌, ◌++◌, Bytes, codes, ◌==◌,
  if◌then◌else◌,
}
use dht_spider.Std.Decimal.{ℤ}
use dht_spider.Bitmap.{◌>>=◌}

pub record TorrentEntry : Type 0 where
  pub infohash : Bytes
  pub name : Bytes
  pub files : Bytes
  pub created_at : ℤ

-- The statements of the file, by what they have as arguments: `none` is an error of SQLite. A row
-- that is `none` cannot be read as a `TorrentEntry`.
pub record Sqlite {ℓ} (S : Type ℓ) : Type ℓ where
  -- `SELECT COUNT(*) FROM torrents`, with or without `WHERE name LIKE ?1 ESCAPE '\'`
  pub count_all : S → Option ℕ
  pub count_like : Bytes → S → Option ℕ
  -- `ORDER BY created_at DESC LIMIT .. OFFSET ..`, without and with the same condition
  pub select_all : ℕ → ℕ → S → Option (List (Option TorrentEntry))
  pub select_like : Bytes → ℕ → ℕ → S → Option (List (Option TorrentEntry))
  -- `WHERE infohash = ?1`
  pub select_infohash : Bytes → S → Option (List (Option TorrentEntry))
  -- `INSERT OR IGNORE INTO torrents (infohash, name, files) VALUES (?1, ?2, ?3)`
  pub insert_or_ignore : ℤ → Bytes → Bytes → Bytes → S → Option S

-- `str::replace` of an ASCII character
unfoldable pub replace : ℕ → Bytes → Bytes → Bytes
replace c by [] = []
replace c by (b ∷ s) = if b == c then by ++ replace c by s else b ∷ replace c by s

-- `format!("%{}%", ..)`
unfoldable pub pattern_of : Bytes → Bytes
unfolding replace
pattern_of search =
    b'%' ∷ (replace b'_' (codes "\\_") (replace b'%' (codes "\\%") search) ++ b'%' ∷ [])

-- `rows.filter_map(|r| r.ok()).collect()`
unfoldable pub filter_ok : List (Option TorrentEntry) → List TorrentEntry
filter_ok [] = []
filter_ok (none ∷ rows) = filter_ok rows
filter_ok (some e ∷ rows) = e ∷ filter_ok rows

-- What `rows.next()?` gives, read.
abbrev pub first_row : List (Option TorrentEntry) → Option (Option TorrentEntry)
first_row [] = some none
first_row (none ∷ rows) = none
first_row (some e ∷ rows) = some (some e)

-- `page.saturating_sub(1) * page_size`, which wraps at 2 ^ 32 without the checks of a debug build
abbrev pub offset : ℕ → ℕ → ℕ
offset page page_size = (page - 1) * page_size % 2 ^ 32

module _ {ℓ} {S : Type ℓ} (db : Sqlite S) where
  unfoldable pub insert : ℤ → Bytes → Bytes → Bytes → S → Option S
  insert now infohash name files s = db.insert_or_ignore now infohash name files s

  unfoldable pub list : ℕ → ℕ → Bytes → S → Option (List TorrentEntry × ℕ)
  unfolding pattern_of filter_ok
  list page page_size [] s = do
    total ← db.count_all s
    rows ← db.select_all page_size (offset page page_size) s
    some (filter_ok rows, total)
  list page page_size (b ∷ search) s = do
    total ← db.count_like (pattern_of (b ∷ search)) s
    rows ← db.select_like (pattern_of (b ∷ search)) page_size (offset page page_size) s
    some (filter_ok rows, total)

  unfoldable pub count : S → Option ℕ
  count s = db.count_all s

  unfoldable pub get_by_infohash : Bytes → S → Option (Option TorrentEntry)
  get_by_infohash infohash s = db.select_infohash infohash s >>= first_row

abbrev add_len : ℕ → Option ℕ → ℕ
add_len total none = total
add_len total (some len) = total + len

-- The three files of the database, those whose metadata can be read. `metadata` of the file system
-- gives a length.
unfoldable pub db_size : (Bytes → Option ℕ) → Bytes → ℕ
db_size metadata db_path =
    let main = add_len 0 (metadata (db_path ++ [])) in
    let wal = add_len main (metadata (db_path ++ codes "-wal")) in
    add_len wal (metadata (db_path ++ codes "-shm")) % 2 ^ 64
