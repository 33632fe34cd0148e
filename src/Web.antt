-- ===== src/Web.antt =====
-- src/web.rs: the handlers of the web panel, from a request's fields to the answer. The crate
-- serde_json is a parameter, and the table is that of src/storage.rs. An answer is the fields of
-- its JSON text. A database that fails and a task that fails answer alike.
pub mod Pages
pub mod Hash
mod Tests
use mathlib.Core.Option
use dht_spider.Prelude.{
  ℕ, ◌+◌, ◌-◌, ◌/◌, ◌%◌, ◌^◌, min, max, Bool, true, false, ◌&&◌, Option, none, some, List, [], ◌∷◌,
  Bytes, codes, length, map, ltb, ◌==◌, if◌then◌else◌,
}
use dht_spider.Std.Decimal.{ℤ, pos, as_usize}
use dht_spider.Std.Int.{◌+ℤ◌}
use dht_spider.Std.Order.{bytes_eq}
use dht_spider.Std.Text.{lower, is_hexdigit, all, strip_prefix, is_some, or_else, split, trim}
use dht_spider.Logger.{as_i64}
use dht_spider.Storage as Storage
use dht_spider.Storage.{TorrentEntry, Sqlite, get_by_infohash, count, db_size}
use dht_spider.Dht.Command.{DhtCommand, get_peers_command}

-- `to_lowercase` changes bytes that are not ASCII too, but to none that is a hexadecimal digit; the
-- texts that get past the test are the same.
unfoldable pub hash_of : Bytes → Option Bytes
unfolding lower is_hexdigit all
hash_of text =
    let h = map lower text in if length h == 40 && all is_hexdigit h then some h else none

abbrev pub hash_of_part : Option Bytes → Option Bytes
hash_of_part none = none
hash_of_part (some hash) = hash_of hash

abbrev pub or_next : Option Bytes → Option Bytes → Option Bytes
or_next none next = next
or_next (some h) next = some h

-- The loop over the parameters of a magnet link.
unfoldable pub hash_of_parts : List Bytes → Option Bytes
unfolding strip_prefix
hash_of_parts [] = none
hash_of_parts (part ∷ parts) =
    or_next (hash_of_part (strip_prefix (codes "xt=urn:btih:") part)) (hash_of_parts parts)

unfoldable pub parse_infohash : Bytes → Option Bytes
unfolding hash_of_parts hash_of strip_prefix split trim
parse_infohash input =
    let s = trim input in
    if is_some (strip_prefix (codes "magnet:") s)
    then hash_of_parts (split b'&' (or_else (strip_prefix (codes "magnet:?") s) s))
    else hash_of s

pub record ListQuery : Type 0 where
  pub page : Option ℕ
  pub page_size : Option ℕ
  pub search : Option Bytes

-- `serde_json`: the array in a column, or an error; and `get("length")` and `as_i64` of a value.
pub record SerdeJson (V : Type 0) : Type 0 where
  pub from_str : Bytes → Option (List V)
  pub length_field : V → Option ℤ

pub record Row (V : Type 0) : Type 0 where
  pub infohash : Bytes
  pub name : Bytes
  pub files : List V
  pub file_count : ℕ
  pub total_size : ℤ
  pub created_at : ℤ

pub data Answer (V : Type 0) : Type 0 where
  torrents : List (Row V) → ℕ → ℕ → ℕ → ℕ → Answer V
  stats : ℕ → ℕ → Answer V
  found : Bytes → Bytes → List V → ℤ → ℤ → Answer V
  searching : Bytes → Answer V
  pending invalid database_error unauthorized authorized : Answer V

-- The bounds of a request's page and page size.
abbrev pub page_of : ListQuery → ℕ
page_of q = max (or_else q.page 1) 1

abbrev pub page_size_of : ListQuery → ℕ
page_size_of q = min (max (or_else q.page_size 15) 1) 200

-- `(total + page_size - 1) / page_size` of `u32`s
abbrev pub total_pages_of : ℕ → ℕ → ℕ
total_pages_of total page_size = (total + page_size + 2 ^ 32 - 1) % 2 ^ 32 / page_size

-- The sum of the lengths that are there, which wraps without the checks of a debug build.
abbrev add_field : ℤ → Option ℤ → ℤ
add_field total none = total
add_field total (some n) = as_i64 (as_usize (total +ℤ n))

-- A request of the routes behind `auth_middleware`.
pub data ApiRequest : Type 0 where
  get_torrents : ListQuery → ApiRequest
  get_stats : ApiRequest
  get_query post_query : Bytes → ApiRequest

-- The value of `X-Access-Key`, if the request has it, against the key.
abbrev pub is_key : (Bytes → Option Bytes) → Bytes → Option Bytes → Bool
is_key to_str secret_key none = false
is_key to_str secret_key (some key) =
    or_else (Option.map (λ k. bytes_eq k secret_key) (to_str key)) false

-- `POST /api/auth`, with the text at the body's `key`.
unfoldable pub api_auth : {V : Type 0} → Bytes → Option Bytes → Answer V
unfolding bytes_eq
api_auth secret_key key = if bytes_eq (or_else key []) secret_key then authorized else unauthorized

module _ {V : Type 0} (json : SerdeJson V) where
  abbrev pub files_of : Bytes → List V
  files_of files = or_else (json.from_str files) []

  unfoldable pub sum_lengths : ℤ → List V → ℤ
  sum_lengths total [] = total
  sum_lengths total (f ∷ files) = sum_lengths (add_field total (json.length_field f)) files

  unfoldable pub row_of : TorrentEntry → Row V
  unfolding sum_lengths
  row_of e =
      let files = files_of e.files in
      record {
        infohash = e.infohash;
        name = e.name;
        files = files;
        file_count = length files % 2 ^ 32;
        total_size = sum_lengths (pos 0) files;
        created_at = e.created_at;
      }

  unfoldable pub found_answer : TorrentEntry → Answer V
  unfolding sum_lengths
  found_answer e =
      let files = files_of e.files in
      found e.infohash e.name files (sum_lengths (pos 0) files) e.created_at

  abbrev pub torrents_answer : ℕ → ℕ → Option (List TorrentEntry × ℕ) → Answer V
  torrents_answer page page_size none = database_error
  torrents_answer page page_size (some (entries, total)) =
      torrents (map row_of entries) total page page_size (total_pages_of total page_size)

  module _ {ℓ} {S : Type ℓ} (db : Sqlite S) where
    unfoldable pub api_torrents : ListQuery → S → Answer V
    unfolding Storage.list row_of
    api_torrents q s =
        let page = page_of q in
        let page_size = page_size_of q in
        torrents_answer page page_size (Storage.list db page page_size (or_else q.search []) s)

    unfoldable pub api_stats : (Bytes → Option ℕ) → Bytes → S → Answer V
    unfolding count db_size
    api_stats metadata db_path s = stats (or_else (count db s) 0) (db_size metadata db_path)

    -- The answer, and what the node is told.
    abbrev pub query_answer : Bytes → Option (Option TorrentEntry) → Answer V × Option DhtCommand
    query_answer ih (some (some entry)) = (found_answer entry, none)
    query_answer ih (some none) = (searching ih, some (get_peers_command ih))
    query_answer ih none = (searching ih, some (get_peers_command ih))

    abbrev pub start_answer : Option Bytes → S → Answer V × Option DhtCommand
    start_answer none s = (invalid, none)
    start_answer (some ih) s = query_answer ih (get_by_infohash db ih s)

    unfoldable pub api_query_start : Bytes → S → Answer V × Option DhtCommand
    unfolding parse_infohash get_by_infohash found_answer trim
    api_query_start query s = start_answer (parse_infohash (trim query)) s

    abbrev pub status_answer : Option (Option TorrentEntry) → Answer V
    status_answer (some (some entry)) = found_answer entry
    status_answer (some none) = pending
    status_answer none = pending

    unfoldable pub api_query_status : Bytes → S → Answer V
    api_query_status infohash s = status_answer (get_by_infohash db infohash s)

    -- The routes behind the key, by their parameters.
    abbrev pub api_route :
        (Bytes → Option ℕ) → Bytes → ApiRequest → S → Answer V × Option DhtCommand
    api_route metadata db_path (get_torrents q) s = (api_torrents q s, none)
    api_route metadata db_path get_stats s = (api_stats metadata db_path s, none)
    api_route metadata db_path (get_query infohash) s = (api_query_status infohash s, none)
    api_route metadata db_path (post_query query) s = api_query_start query s

    -- `to_str` of a header is the crate http's.
    unfoldable pub auth_middleware :
        (Bytes → Option Bytes)
        → (Bytes → Option ℕ)
        → Bytes
        → Bytes
        → Option Bytes
        → ApiRequest
        → S
        → Answer V × Option DhtCommand
    unfolding api_torrents api_stats api_query_start api_query_status bytes_eq
    auth_middleware to_str metadata db_path secret_key header req s =
        if is_key to_str secret_key header
        then api_route metadata db_path req s
        else (unauthorized, none)
