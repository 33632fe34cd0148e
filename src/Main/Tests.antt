-- ===== src/Main/Tests.antt =====
-- Runs of the program's tasks, and the theorems at concrete inputs.
use dht_spider.Prelude.{
  ℕ, ◌≡◌, refl, true, none, some, List, [], ◌∷◌, ◌++◌, Bytes, codes, replicate, arith, inl, map,
}
use dht_spider.Std.Decimal.{pos, decimal, decimal_i64, digits, parse_usize, parse_i64}
use dht_spider.Std.Net.{v4, SocketAddr, ip_eq}
use dht_spider.Std.Display.{ip_string}
use dht_spider.Std.Order.{bytes_eq, bytes_cmp}
use dht_spider.Std.Utf8.{from_utf8, from_utf8_lossy, is_utf8}
use dht_spider.Std.Sort.{place, sort_by}
use dht_spider.Bencode.Value.{
  bytes, int, list, dict, Entries, empty, entry, get, dict_of, insert_all,
}
use dht_spider.Bencode.Value as Value
use dht_spider.Bencode.Decode.{decode, decode_item, decode_string, decode_int}
use dht_spider.Bencode.Encode.{display, encode}
use dht_spider.Token.{token, check}
use dht_spider.Logger as Logger
use dht_spider.Storage as Storage
use dht_spider.Storage.{TorrentEntry, get_by_infohash}
use dht_spider.Storage.Engine.{filter}
use dht_spider.Storage.Memory.{like, engine, engine_IsSqlite}
use dht_spider.Wire.Queue.{request}
use dht_spider.Dht.{Dht, Outside}
use dht_spider.Dht.Request.{announce}
use dht_spider.Web.{SerdeJson, found, sum_lengths, found_answer, api_query_status}
use dht_spider.Main.{
  FileInfo, Texts, Kept, parse_from, parse_args, node, texts_of, files_of, metadata_of,
  read_metadata, on_response, on_output, wire_requests,
}
use dht_spider.Main.Reading.{file_value, file_values, read_metadata-encode}
use dht_spider.Main.Crawl.{announce-wire_requests}
use dht_spider.Main.Found.{size_of, api_query_status-on_response}

program : Unit {0}
unfolding decimal decimal_i64 digits parse_usize parse_i64 ip_string bytes_eq bytes_cmp from_utf8
    from_utf8_lossy is_utf8 place sort_by get dict_of insert_all Value.insert Value.push decode
    decode_item decode_string decode_int encode Storage.insert get_by_infohash filter like request
    sum_lengths found_answer api_query_status parse_from parse_args texts_of files_of metadata_of
    read_metadata on_response on_output wire_requests Logger.log
program = tt

key_runs :
    parse_args (codes "dht-spider" ∷ codes "-v" ∷ codes "--key" ∷ codes "k" ∷ []) ≡ some (codes "k")
unfolding program
key_runs = refl

no_key_runs : parse_args (codes "dht-spider" ∷ codes "-m" ∷ []) ≡ none
unfolding program
no_key_runs = refl

abbrev one_file : FileInfo
one_file = record { path = codes "a" ∷ codes "b" ∷ []; length = pos 5 }

abbrev info : Entries
info =
    entry (codes "files") (list (file_values (one_file ∷ [])))
      (entry (codes "name") (bytes (codes "n")) empty)

files_runs :
    read_metadata (codes "d5:filesld6:lengthi5e4:pathl1:a1:beee4:name1:ne")
    ≡ some (record { name = codes "n"; files = one_file ∷ [] })
unfolding program
files_runs = refl

length_runs :
    read_metadata (codes "d6:lengthi5e4:name1:ne")
    ≡ some
        (record { name = codes "n"; files = record { path = codes "n" ∷ []; length = pos 5 } ∷ [] })
unfolding program
length_runs = refl

nameless_runs : read_metadata (codes "d6:lengthi5ee") ≡ none
unfolding program
nameless_runs = refl

info-IsValue : Value.IsValue (dict info)
unfolding program Value.IsValue file_value
info-IsValue = (
  (refl, omega arith),
  (
    (
      (refl, omega arith),
      omega arith,
      (refl, tt),
      ((refl, omega arith), (omega arith, (omega arith, tt)), tt, tt),
    ),
    tt,
  ),
  (refl, tt),
  ((refl, omega arith), omega arith, tt, tt),
)

read_metadata-encode_example :
    read_metadata (encode display (dict info) ++ [])
    ≡ some (record { name = codes "n"; files = one_file ∷ [] })
unfolding program file_value Value.IsValue
read_metadata-encode_example =
    read_metadata-encode display info (codes "n") [] one_file [] info-IsValue (omega arith) refl
      refl ((refl, (refl, tt)), tt) (inl refl)

abbrev texts : Texts
texts = record { line = λ ih m. ih ++ m.name; files_json = map size_of }

-- A column's byte is the length of its file.
abbrev json : SerdeJson ℕ
json = record { from_str = λ s. some s; length_field = λ b. some (pos b) }

abbrev kept : Kept (List TorrentEntry)
kept = record { logger = Logger.new; storage = [] }

abbrev stored : TorrentEntry
stored = record { infohash = codes "ih"; name = codes "n"; files = 5 ∷ []; created_at = pos 8 }

api_query_status-on_response_example :
    api_query_status json engine
      (codes "ih")
      (on_response
        (λ b. b)
        texts
        engine
        0
        true
        (pos 8)
        (codes "ih")
        (codes "d6:lengthi5e4:name1:ne")
        kept).0.storage
    ≡ found (codes "ih") (codes "n") (5 ∷ []) (pos 5) (pos 8)
unfolding program engine engine_IsSqlite
api_query_status-on_response_example =
    api_query_status-on_response (λ b. b) texts json engine like engine_IsSqlite 0 true (pos 8)
      (codes "ih") (codes "d6:lengthi5e4:name1:ne") kept
      (record { name = codes "n"; files = record { path = codes "n" ∷ []; length = pos 5 } ∷ [] })
      (5 ∷ []) none (stored ∷ []) refl refl (refl, tt) (refl, tt) (omega arith) refl refl
      (omega arith) (omega arith)

-- A node that gave a token to the peer that announces.
abbrev random : Bytes
random = replicate 8 7

abbrev key : Bytes
key = replicate 20 9

abbrev caller : SocketAddr
caller = record { ip = v4 10 0 0 7; port = 6881 }

abbrev started : Dht
unfolding node
started = node 0 (replicate 20 1)

abbrev crawler : Dht
unfolding token
crawler = record started { tokens = (token started.tokens 5 random caller.ip).1 }

abbrev outside : Outside
outside = record {
  itoa = display;
  hex_encode = λ s. s;
  hex_decode = λ s. inl s;
  parse_addr = λ s. none;
}

announce-wire_requests_example :
    wire_requests outside.hex_decode
      (announce outside crawler
        (codes "t1")
        key
        key
        (token started.tokens 5 random caller.ip).0
        6881
        caller).1
    ≡ record { info_hash = key; ip = codes "10.0.0.7"; port = 6881 } ∷ []
unfolding program crawler started check ip_eq
announce-wire_requests_example =
    announce-wire_requests outside key refl crawler (codes "t1") key
      (token started.tokens 5 random caller.ip).0 6881 caller refl
