-- ===== src/Main/Found.antt =====
-- From the metadata of a download to the answers of the web panel.
use dht_spider.Prelude.{
  ℕ, ◌+◌, ◌%◌, ◌^◌, ◌<◌, ◌≡◌, refl, ap, ◌∙◌, Bool, false, Option, none, some, List, [], ◌∷◌, All,
  Bytes, leb, arith,
}
use dht_spider.Std.Decimal.{ℤ, pos, negsuc}
use dht_spider.Std.Map.{bytes_eq_refl}
use dht_spider.Storage as Storage
use dht_spider.Storage.{TorrentEntry, Sqlite, get_by_infohash}
use dht_spider.Storage.Engine.{IsSqlite}
use dht_spider.Storage.Rows.{get_by_infohash-insert}
use dht_spider.Web.{SerdeJson, found, sum_lengths, found_answer, api_query_status}
use dht_spider.Main.{FileInfo, Metadata, Texts, Kept, read_metadata, on_response}

-- `serde_json` reads the files back: each value has the length of its file.
abbrev pub Written : {V : Type 0} → SerdeJson V → List V → List FileInfo → Type 0
Written json [] [] = Unit
Written json [] (f ∷ files) = ⊥
Written json (v ∷ values) [] = ⊥
Written json (v ∷ values) (f ∷ files) =
    (json.length_field v ≡ some f.length) × Written json values files

abbrev pub size_of : FileInfo → ℕ
size_of f = elim f.length [ pos n ↦ n | negsuc n ↦ 0 ]

abbrev pub total_size : List FileInfo → ℕ
total_size [] = 0
total_size (f ∷ files) = size_of f + total_size files

abbrev pub HasSize : FileInfo → Type 0
HasSize f = f.length ≡ pos (size_of f)

sum_lengths_lem :
    {V : Type 0} (json : SerdeJson V) (values : List V) (files : List FileInfo) (before : ℕ)
    → Written json values files
    → All HasSize files
    → before + total_size files < 2 ^ 63
    → sum_lengths json (pos before) values ≡ pos (before + total_size files)
unfolding sum_lengths
sum_lengths_lem json [] [] before w h b = ap pos (omega arith)
sum_lengths_lem json [] (f ∷ files) before w h b = absurd w
sum_lengths_lem json (v ∷ values) [] before w h b = absurd w
sum_lengths_lem json (v ∷ values) (f ∷ files) before w h b =
    let n = size_of f in
    let low : (before + n) % 2 ^ 64 ≡ before + n = omega (arith, b) in
    let small : leb (2 ^ 63) (before + n) ≡ false = ground (arith, b) in
    let next = sum_lengths_lem json values files (before + n) w.1 h.1 (omega (arith, b)) in
    let assoc : before + n + total_size files ≡ before + (n + total_size files) = omega arith in
    let here : json.length_field v ≡ some (pos n) = w.0 ∙ ap some h.0 in
    rw (here, low, small) (next ∙ ap pos assoc)

module _ {ℓ} {S : Type ℓ} {V : Type 0} (hex_encode : Bytes → Bytes) (texts : Texts)
    (json : SerdeJson V) (db : Sqlite S) (like : Bytes → Bytes → Bool)
    (laws : IsSqlite db like) where
  -- The metadata of a torrent is stored, the table being readable before and after. `serde_json`
  -- reads back as many values as there are files, with their lengths, which are not negative and
  -- have a sum below 2 ^ 63. If nothing was stored of the torrent before, the web panel then
  -- answers a query of its info hash with the info hash, the name of the metadata, these values,
  -- the sum of the files' lengths and the time of the storing; otherwise it answers as it did
  -- before.
  pub api_query_status-on_response :
      (ts : ℕ) (opens : Bool) (now : ℤ) (info_hash metadata_info : Bytes) (k : Kept S)
      (m : Metadata) (values : List V) (before : Option TorrentEntry) (s' : S)
      → read_metadata metadata_info ≡ some m
      → json.from_str (texts.files_json m.files) ≡ some values
      → Written json values m.files
      → All HasSize m.files
      → total_size m.files < 2 ^ 63
      → get_by_infohash db (hex_encode info_hash) k.storage ≡ some before
      → Storage.insert db now (hex_encode info_hash) m.name (texts.files_json m.files) k.storage
        ≡ some s'
      → laws.IsReadable k.storage
      → laws.IsReadable s'
      → api_query_status json db
          (hex_encode info_hash)
          (on_response hex_encode texts db ts opens now info_hash metadata_info k).0.storage
        ≡ elim before [
          | none ↦ found (hex_encode info_hash) m.name values (pos (total_size m.files)) now
          | some old ↦ api_query_status json db (hex_encode info_hash) k.storage
        ]
  unfolding on_response api_query_status found_answer
  api_query_status-on_response ts opens now info_hash metadata_info k m values none s' read back
        written sizes small there ins r r' =
      let ih = hex_encode info_hash in
      let files = texts.files_json m.files in
      let total : sum_lengths json (pos 0) values ≡ pos (total_size m.files) =
        sum_lengths_lem json values m.files 0 written sizes (omega (arith, small))
        ∙ ap pos (omega arith) in
      rw
        (
          read,
          ins,
          get_by_infohash-insert db like laws now ih m.name files ih k.storage s' r r' ins,
          bytes_eq_refl ih,
          there,
          back,
          total,
        )
        refl
  api_query_status-on_response ts opens now info_hash metadata_info k m values (some old) s' read
        back written sizes small there ins r r' =
      let ih = hex_encode info_hash in
      let files = texts.files_json m.files in
      rw
        (
          read,
          ins,
          get_by_infohash-insert db like laws now ih m.name files ih k.storage s' r r' ins,
          bytes_eq_refl ih,
          there,
        )
        refl
