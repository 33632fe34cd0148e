-- ===== src/Storage/Engine.antt =====
-- What src/storage.rs relies on of SQLite, as laws of the engine's statements.
use mathlib.Core.List.{Perm}
use dht_spider.Prelude.{
  ℕ, ◌≤◌, ◌<◌, ◌^◌, ◌≡◌, ◌≢◌, Bool, true, false, ◌&&◌, ◌||◌, Option, some, List, [], ◌∷◌, ◌++◌,
  Bytes, length, take, drop, map, leb, ◌==◌, if◌then◌else◌,
}
use dht_spider.Std.Decimal.{ℤ, pos, negsuc}
use dht_spider.Std.Sort.{IsSorted}
use dht_spider.Std.Text.{lower}
use dht_spider.Std.Order.{bytes_eq}
use dht_spider.Storage.{TorrentEntry, Sqlite}

-- The operator `name LIKE pattern ESCAPE '\'`, on texts without NUL: `%` stands for any sequence, a
-- character behind `\` for itself, and any but `%`, `_` and `\` for itself in either ASCII case.
pub record IsLike (like : Bytes → Bytes → Bool) : Type 0 where
  pub end : like [] [] ≡ true
  pub any_at_end : (p : Bytes) → like (b'%' ∷ p) [] ≡ like p []
  pub any :
      (p : Bytes) (d : ℕ) (s : Bytes)
      → d ≢ 0
      → like (b'%' ∷ p) (d ∷ s) ≡ (like p (d ∷ s) || like (b'%' ∷ p) s)
  pub escaped_at_end : (c : ℕ) (p : Bytes) → c ≢ 0 → like (b'\\' ∷ c ∷ p) [] ≡ false
  pub escaped :
      (c : ℕ) (p : Bytes) (d : ℕ) (s : Bytes)
      → c ≢ 0
      → d ≢ 0
      → like (b'\\' ∷ c ∷ p) (d ∷ s) ≡ (lower c == lower d && like p s)
  pub plain_at_end :
      (c : ℕ) (p : Bytes) → c ≢ 0 → c ≢ b'%' → c ≢ b'_' → c ≢ b'\\' → like (c ∷ p) [] ≡ false
  pub plain :
      (c : ℕ) (p : Bytes) (d : ℕ) (s : Bytes)
      → c ≢ 0
      → d ≢ 0
      → c ≢ b'%'
      → c ≢ b'_'
      → c ≢ b'\\'
      → like (c ∷ p) (d ∷ s) ≡ (lower c == lower d && like p s)

-- The rows for which a condition holds.
unfoldable pub filter {ℓ} : {A : Type ℓ} → (A → Bool) → List A → List A
filter p [] = []
filter p (x ∷ xs) = let rest = filter p xs in if p x then x ∷ rest else rest

abbrev pub at_most : ℤ → ℤ → Bool
at_most (pos a) (pos b) = leb a b
at_most (pos a) (negsuc b) = false
at_most (negsuc a) (pos b) = true
at_most (negsuc a) (negsuc b) = leb b a

-- `ORDER BY created_at DESC` may have `a` before `b`.
abbrev pub no_older : TorrentEntry → TorrentEntry → Bool
no_older a b = at_most b.created_at a.created_at

abbrev pub has_infohash : Bytes → TorrentEntry → Bool
has_infohash infohash e = bytes_eq e.infohash infohash

-- What the primary key excludes: two rows of one infohash.
abbrev pub IsTable : List TorrentEntry → Type 0
IsTable [] = Unit
IsTable (e ∷ rows) = (filter (has_infohash e.infohash) rows ≡ []) × IsTable rows

abbrev pub added : TorrentEntry → List TorrentEntry → List TorrentEntry → List TorrentEntry
added e rows [] = rows ++ e ∷ []
added e rows (old ∷ more) = rows

-- What a statement with `ORDER BY created_at DESC LIMIT n OFFSET off` returns of some rows: it may
-- order the rows of one time in any way, and in another way the next time.
abbrev pub Shows : ℕ → ℕ → List TorrentEntry → Option (List (Option TorrentEntry)) → Type 0
Shows n off es r =
    (ordered : List TorrentEntry) × Perm ordered es
    × IsSorted no_older ordered
    × (r ≡ some (map some (take n (drop off ordered))))

-- `SQLITE_MAX_LIKE_PATTERN_LENGTH`, in bytes: a longer pattern is an error.
abbrev pub max_pattern : ℕ
max_pattern = 50000

-- The rows of the table are in the order of their insertion. A state is readable if its statements
-- have no error but for a pattern that is too long.
pub record IsSqlite {ℓ} {S : Type ℓ} (db : Sqlite S) (like : Bytes → Bytes → Bool)
    : Type (1 ⊔ ℓ) where
  pub rows : S → List TorrentEntry
  pub IsReadable : S → Type 0
  pub length-IsReadable : (s : S) → IsReadable s → length (rows s) < 2 ^ 32
  pub count_all_lem : (s : S) → IsReadable s → db.count_all s ≡ some (length (rows s))
  pub count_like_lem :
      (p : Bytes) (s : S)
      → IsReadable s
      → length p ≤ max_pattern
      → db.count_like p s ≡ some (length (filter (λ e. like p e.name) (rows s)))
  pub select_all_lem :
      (n off : ℕ) (s : S) → IsReadable s → Shows n off (rows s) (db.select_all n off s)
  pub select_like_lem :
      (p : Bytes) (n off : ℕ) (s : S)
      → IsReadable s
      → length p ≤ max_pattern
      → Shows n off (filter (λ e. like p e.name) (rows s)) (db.select_like p n off s)
  pub select_infohash_lem :
      (infohash : Bytes) (s : S)
      → IsReadable s
      → db.select_infohash infohash s ≡ some (map some (filter (has_infohash infohash) (rows s)))
  pub insert_or_ignore_lem :
      (now : ℤ) (infohash name files : Bytes) (s s' : S)
      → db.insert_or_ignore now infohash name files s ≡ some s'
      → rows s'
        ≡ added
            (record { infohash = infohash; name = name; files = files; created_at = now })
            (rows s)
            (filter (has_infohash infohash) (rows s))
