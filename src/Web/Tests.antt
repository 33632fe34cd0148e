-- ===== src/Web/Tests.antt =====
-- Runs of the handlers, and the theorems at concrete requests.
use dht_spider.Prelude.{
  ℕ, zero, suc, ◌+◌, ◌-◌, ◌*◌, leb, ap, ◌≡◌, refl, none, some, List, [], ◌∷◌, ◌++◌, Bytes, codes,
  length, map, if◌then◌else◌, arith, inl, inr, ◌⊎◌,
}
use mathlib.Core.List.{Perm}
use dht_spider.Std.Decimal.{pos}
use dht_spider.Std.Text.{
  lower, is_hexdigit, all, strip_prefix, split, is_space, trim_start, trim_reversed, reverse_onto,
  trim,
}
use dht_spider.Std.TextLaws.{join}
use dht_spider.Std.Order.{bytes_eq, bytes_cmp}
use dht_spider.Std.Sort.{IsSorted, place, sort_by}
use dht_spider.Types as Types
use dht_spider.Types.{decode_info_hash}
use dht_spider.Storage as Storage
use dht_spider.Storage.{
  TorrentEntry, replace, pattern_of, filter_ok, get_by_infohash, count, db_size,
}
use dht_spider.Storage.Engine.{filter, no_older}
use dht_spider.Storage.Like.{begins_with, has}
use dht_spider.Storage.Paging.{shown, is_wanted}
use dht_spider.Storage.Memory.{like, like-IsLike, engine, engine_IsSqlite}
use dht_spider.Dht.Command.{get_peers_command}
use dht_spider.Web.{
  SerdeJson, stats, found, searching, unauthorized, get_stats, hash_of, hash_of_parts,
  parse_infohash, sum_lengths, row_of, found_answer, api_torrents, api_stats, api_query_start,
  api_query_status, api_auth, auth_middleware,
}
use dht_spider.Web.Pages.{web_pages, web_pages-shown}
use dht_spider.Web.Hash.{
  IsHash, IsHexDecode, hash_param, joined, parse_infohash-IsHash, parse_infohash_magnet,
}

program : Unit {0}
unfolding lower is_hexdigit all strip_prefix split is_space trim_start trim_reversed reverse_onto
    trim bytes_eq bytes_cmp place sort_by Storage.list replace pattern_of filter_ok get_by_infohash
    count db_size filter begins_with has like join hash_of hash_of_parts parse_infohash sum_lengths
    row_of found_answer api_torrents api_stats api_query_start api_query_status api_auth
    auth_middleware
program = tt

-- A column is its text's bytes, each a file of that length.
abbrev json : SerdeJson ℕ
json = record { from_str = λ s. some s; length_field = λ b. some (pos b) }

abbrev row : Bytes → ℕ → TorrentEntry
row name at = record { infohash = name; name = name; files = 3 ∷ 4 ∷ []; created_at = pos at }

abbrev rows : List TorrentEntry
rows = row (codes "first") 5 ∷ row (codes "second") 9 ∷ row (codes "third") 7 ∷ []

abbrev digits : Bytes
digits = codes "0123456789abcdefABCDEF0123456789abcdef01"

link_runs :
    parse_infohash
      (codes "  magnet:?dn=x&xt=urn:btih:0123456789abcdefABCDEF0123456789abcdef01&tr=y\n")
    ≡ some (map lower digits)
unfolding program
link_runs = refl

short_runs : parse_infohash (codes "magnet:?xt=urn:btih:0123") ≡ none
unfolding program
short_runs = refl

search_runs :
    api_query_start json engine (digits ++ codes " ") rows
    ≡ (searching (map lower digits), some (get_peers_command (map lower digits)))
unfolding program engine
search_runs = refl

found_runs :
    api_query_status json engine (codes "third") rows
    ≡ found (codes "third") (codes "third") (3 ∷ 4 ∷ []) (pos 7) (pos 7)
unfolding program engine
found_runs = refl

refused_runs :
    auth_middleware json engine
      (λ b. some b)
      (λ path. none)
      []
      (codes "key")
      (some (codes "kex"))
      get_stats
      rows
    ≡ (unauthorized, none)
unfolding program engine
refused_runs = refl

key_runs :
    auth_middleware json engine
      (λ b. some b)
      (λ path. none)
      []
      (codes "key")
      (some (codes "key"))
      get_stats
      rows
    ≡ (stats 3 0, none)
unfolding program engine
key_runs = refl

web_pages-shown_example :
    (web_pages json engine 1 (codes "D") rows 2 ≡ some (map (row_of json) (shown (codes "D") rows)))
    × Perm (shown (codes "D") rows) (filter (is_wanted (codes "D")) rows)
    × IsSorted no_older (shown (codes "D") rows)
unfolding program engine engine_IsSqlite
web_pages-shown_example =
    web_pages-shown json engine like like-IsLike engine_IsSqlite 1 (codes "D") rows (omega arith)
      (ground arith) (omega arith) (ground arith) ((ground arith, tt), (tt, tt)) (omega arith)
      (omega arith) (omega arith)

abbrev nibble : ℕ → ℕ
nibble c = if leb c b'9' then c - 48 else lower c - 87

abbrev pairs : Bytes → Bytes
pairs (a ∷ b ∷ s) = (nibble a * 16 + nibble b) ∷ pairs s
pairs _ = []

abbrev hex_decode : Bytes → Bytes ⊎ Bytes
hex_decode s = if all is_hexdigit s then inl (pairs s) else inr (codes "invalid character")

length-pairs : (n : ℕ) (s : Bytes) → length s ≡ 2 * n → length (pairs s) ≡ n
length-pairs n [] h = omega arith
length-pairs n (a ∷ []) h = absurd (omega arith)
length-pairs zero (a ∷ b ∷ s) h = absurd (omega arith)
length-pairs (suc n) (a ∷ b ∷ s) h = ap suc (length-pairs n s (omega arith))

hex_decode_IsHexDecode : IsHexDecode hex_decode
hex_decode_IsHexDecode n s h digits = (pairs s, rw digits refl, length-pairs n s h)

parse_infohash-IsHash_example :
    IsHash (map lower digits)
    × (bytes : Bytes) × (decode_info_hash hex_decode (map lower digits) ≡ Types.ok bytes)
    × (length bytes ≡ 20)
unfolding program
parse_infohash-IsHash_example =
    parse_infohash-IsHash hex_decode hex_decode_IsHexDecode (digits ++ codes " ") (map lower digits)
      refl

parse_infohash_magnet_example :
    parse_infohash
      (codes "magnet:?" ++ joined (codes "dn=x" ∷ hash_param digits ∷ codes "tr=y" ∷ []))
    ≡ some (map lower digits)
unfolding program
parse_infohash_magnet_example =
    parse_infohash_magnet (codes "dn=x" ∷ []) (codes "tr=y" ∷ []) digits (refl, tt) (ground arith)
      (ground arith) refl refl
