-- ===== src/Storage/Rows.antt =====
-- The rows of src/storage.rs: what `insert` does to what `get_by_infohash` finds.
use mathlib.Core.Option
use dht_spider.Prelude.{
  ◌≡◌, refl, ◌∙◌, Bool, Option, none, some, List, [], ◌∷◌, ◌++◌, Bytes, map, if◌then◌else◌,
  Bool-cases, inl, inr, arith,
}
use dht_spider.Std.Decimal.{ℤ}
use dht_spider.Std.Order.{bytes_eq, bytes_eq_iff}
use dht_spider.Storage.{TorrentEntry, Sqlite, insert, first_row, get_by_infohash}
use dht_spider.Storage.Engine.{IsSqlite, filter, has_infohash, added}

-- The specification: the entry of an infohash that is there stays, else the new one is there.
abbrev pub or_new : Option TorrentEntry → TorrentEntry → TorrentEntry
or_new none e = e
or_new (some old) e = old

abbrev pub first : List TorrentEntry → Option TorrentEntry
first [] = none
first (e ∷ rows) = some e

first_row-map : (rows : List TorrentEntry) → first_row (map some rows) ≡ some (first rows)
first_row-map [] = refl
first_row-map (e ∷ rows) = refl

module _ {ℓ} {S : Type ℓ} (db : Sqlite S) (like : Bytes → Bytes → Bool)
    (laws : IsSqlite db like) where
  pub get_by_infohash_lem :
      (infohash : Bytes) (s : S)
      → laws.IsReadable s
      → get_by_infohash db infohash s ≡ some (first (filter (has_infohash infohash) (laws.rows s)))
  unfolding get_by_infohash
  get_by_infohash_lem infohash s r =
      rw (laws.select_infohash_lem infohash s r)
        (first_row-map (filter (has_infohash infohash) (laws.rows s)))

first-filter-snoc :
    (j : Bytes) (e : TorrentEntry) (rows : List TorrentEntry)
    → first (filter (has_infohash j) (rows ++ e ∷ [])) ≡ (
        if has_infohash j e
        then some (or_new (first (filter (has_infohash j) rows)) e)
        else first (filter (has_infohash j) rows))
unfolding filter
first-filter-snoc j e [] = ground arith
first-filter-snoc j e (x ∷ rows) = elim (Bool-cases (has_infohash j x)) [
  | inl h ↦ rw h (ground arith)
  | inr h ↦ rw h (first-filter-snoc j e rows)
]

first-filter-added :
    (j : Bytes) (e : TorrentEntry) (rows : List TorrentEntry)
    → first (filter (has_infohash j) (added e rows (filter (has_infohash e.infohash) rows))) ≡ (
        if has_infohash j e
        then some (or_new (first (filter (has_infohash e.infohash) rows)) e)
        else first (filter (has_infohash j) rows))
first-filter-added j e rows = go (filter (has_infohash e.infohash) rows) refl
  where
    go :
        (there : List TorrentEntry)
        → filter (has_infohash e.infohash) rows ≡ there
        → first (filter (has_infohash j) (added e rows there)) ≡ (
            if has_infohash j e
            then some (or_new (first there) e)
            else first (filter (has_infohash j) rows))
    go [] h = first-filter-snoc j e rows ∙ elim (Bool-cases (has_infohash j e)) [
      | inl same ↦ let ej = (bytes_eq_iff e.infohash j).0 same in rw (same, ← ej, h) refl
      | inr other ↦ rw other refl
    ]
    go (old ∷ more) h = elim (Bool-cases (has_infohash j e)) [
      | inl same ↦ let ej = (bytes_eq_iff e.infohash j).0 same in rw (same, ← ej, h) refl
      | inr other ↦ rw other refl
    ]

module _ {ℓ} {S : Type ℓ} (db : Sqlite S) (like : Bytes → Bytes → Bool)
    (laws : IsSqlite db like) where
  -- After an insertion without an error, and as long as the table is readable, the infohash has the
  -- entry that was there, or else the new one; every other infohash has what it had.
  pub get_by_infohash-insert :
      (now : ℤ) (infohash name files j : Bytes) (s s' : S)
      → laws.IsReadable s
      → laws.IsReadable s'
      → insert db now infohash name files s ≡ some s'
      → get_by_infohash db j s' ≡ (
          if bytes_eq infohash j
          then Option.map
              (λ old. some (
                or_new old
                  (record { infohash = infohash; name = name; files = files; created_at = now })))
              (get_by_infohash db infohash s)
          else get_by_infohash db j s)
  unfolding insert
  get_by_infohash-insert now infohash name files j s s' r r' h =
      rw
        (
          get_by_infohash_lem db like laws j s' r',
          get_by_infohash_lem db like laws infohash s r,
          get_by_infohash_lem db like laws j s r,
          laws.insert_or_ignore_lem now infohash name files s s' h,
          first-filter-added j
              (record { infohash = infohash; name = name; files = files; created_at = now })
              (laws.rows s),
        )
        (ground arith)
