-- ===== src/Wire/Tests.antt =====
-- Runs of the framing and the download, and the theorems at concrete inputs.
use dht_spider.Std.Utf8.{is_utf8}
use dht_spider.Std.Decimal.{pos}
use dht_spider.Prelude.{
  ℕ, zero, suc, ◌<◌, ◌≡◌, refl, List, [], ◌∷◌, ◌++◌, none, some, true, false, arith, Bytes, codes,
  replicate,
}
use dht_spider.Std.Decimal.{parse_usize, parse_i64, decimal, decimal_i64}
use dht_spider.Std.Utf8.{from_utf8, from_utf8_lossy}
use dht_spider.Bencode.Value.{get, int, dict, Entries, empty, entry, IsValue}
use dht_spider.Wire.Serving.{IsHeader, pieces_from}
use dht_spider.Wire.Served.{frames, fetch-serve}
use dht_spider.Bencode.Decode.{decode_dict, decode_string, decode_int}
use dht_spider.Bencode.Encode.{display, encode}
use dht_spider.Wire.Fetch.{
  runs, obtains, Connection, extended_handshake, fetch, shake, fetch_metadata,
}
use dht_spider.Wire.FetchLaws.{HasHash, fetch_metadata-HasHash}
use dht_spider.Wire.FetchEnds.{IsOver, fetch-IsOver, fetch_metadata-closed}
use dht_spider.BlackList as BlackList
use dht_spider.BlackList.{BlackList}
use dht_spider.Std.Map as Map
use dht_spider.Wire.Queue.{Request, Event, done, cleaned, new, launch, on_request, receive, run}
use dht_spider.Wire.QueueLaws.{on_request-run}
use dht_spider.Wire.Frame.{send_message, read_message, is_handshake, handshake}
use dht_spider.Wire.Download.{
  Download, waits, rejects, finishes, start, on_message, on_piece, pex_peers,
}
use dht_spider.Wire.Safety.{on_piece_last}

program : Unit {0}
unfolding fetch_metadata shake fetch extended_handshake BlackList.insert BlackList.new Map.insert
    send_message read_message handshake is_handshake on_message on_piece pex_peers decode_dict
    decode_string decode_int from_utf8 from_utf8_lossy parse_usize parse_i64 get encode decimal
    decimal_i64
program = tt

-- A stand-in for the hash.
abbrev first_four : Bytes → Bytes
first_four (a ∷ b ∷ c ∷ d ∷ s) = a ∷ b ∷ c ∷ d ∷ []
first_four s = s

abbrev waiting : Download
waiting = record { pieces = some ([] ∷ []); pieces_num = 1; metadata_size = 5; ut_pex_id = none }

-- The only piece arrives, and its hash is right.
piece_runs :
    on_message first_four
      (codes "abcd")
      display
      waiting
      (20 ∷ 1 ∷ codes "d8:msg_typei1e5:piecei0eeabcde")
    ≡ finishes (codes "abcde")
unfolding program
piece_runs = refl

piece_short :
    on_message first_four
      (codes "abcd")
      display
      waiting
      (20 ∷ 1 ∷ codes "d8:msg_typei1e5:piecei0eeabcd")
    ≡ rejects
unfolding program
piece_short = refl

handshake_runs :
    on_message first_four
      (codes "abcd")
      display
      start
      (20 ∷ 0 ∷ codes "d1:md11:ut_metadatai3ee13:metadata_sizei5ee")
    ≡ waits waiting ((20 ∷ 3 ∷ codes "d8:msg_typei0e5:piecei0ee") ∷ []) []
unfolding program
handshake_runs = refl

on_piece_last_example :
    (on_piece first_four
      (codes "abcd")
      (record { pieces = some ([] ∷ []); pieces_num = 1; metadata_size = 16384; ut_pex_id = none })
      ([] ∷ [])
      0
      (replicate 16384 7))
    ≡ rejects
on_piece_last_example =
    on_piece_last first_four (codes "abcd")
      (record { pieces = some ([] ∷ []); pieces_num = 1; metadata_size = 16384; ut_pex_id = none })
      ([] ∷ []) (replicate 16384 7) (omega arith) (omega arith) refl refl

abbrev as_text : Bytes → Bytes
as_text s = codes "hash"

abbrev wanted : Request
wanted = record { info_hash = replicate 20 7; ip = codes "10.0.0.1"; port = 6881 }

accepted : (on_request as_text (launch (new 5)).wire 3 wanted).0 ≡ true
unfolding on_request new launch
accepted = refl

-- The download ends, and the queue is cleaned twenty minutes later.
abbrev later : List Event
later = done 0 (BlackList.new 5) ∷ cleaned 1200000000000 ∷ []

on_request-run_example :
    (on_request as_text
      (run as_text (receive as_text (launch (new 5)) 3 wanted) later).wire
      1200000000001
      wanted).0
    ≡ false
on_request-run_example =
    on_request-run as_text (launch (new 5)) 3 1200000000001 wanted later accepted

-- A peer that answers the handshake, announces five bytes of metadata and sends them.
abbrev from_peer : Bytes
from_peer =
    handshake (replicate 20 7) (replicate 20 9)
    ++ send_message (20 ∷ 0 ∷ codes "d1:md11:ut_metadatai3ee13:metadata_sizei5ee")
    ++ send_message (20 ∷ 1 ∷ codes "d8:msg_typei1e5:piecei0eeabcde")

abbrev connection : Connection
connection = record { in_time = true; sends = true; stream = from_peer; closed = true }

abbrev always : Bytes → Bytes
always s = replicate 20 7

fetch_runs :
    (fetch_metadata always display 3
      (BlackList.new 5)
      0
      (replicate 20 1)
      wanted
      (some connection)).0.result
    ≡ obtains (codes "abcde")
unfolding program
fetch_runs = refl

fetch_metadata-HasHash_example :
    let (work, bl') =
      fetch_metadata always display 3
        (BlackList.new 5)
        0
        (replicate 20 1)
        wanted
        (some connection) in
    HasHash always (replicate 20 7) work.result × (bl' ≡ BlackList.new 5)
fetch_metadata-HasHash_example =
    fetch_metadata-HasHash always display 3 (BlackList.new 5) 0 (replicate 20 1) wanted
      (some connection)

fetch-IsOver_example :
    IsOver (fetch always display (replicate 20 7) false 3 start (codes "ab")).result
fetch-IsOver_example =
    fetch-IsOver always display (replicate 20 7) 3 start (codes "ab") (omega arith)

fetch_metadata-closed_example :
    (fetch_metadata always display 9 (BlackList.new 5) 0 (replicate 20 1) wanted (
      some (record {
        in_time = true;
        sends = true;
        stream = handshake (replicate 20 7) (replicate 20 9);
        closed = true;
      }))).0.result
    ≡ runs
unfolding program
fetch_metadata-closed_example =
    fetch_metadata-closed always display 9 (BlackList.new 5) 0 (replicate 20 1) wanted
      (handshake (replicate 20 7) (replicate 20 9)) refl refl

-- The same metadata, with the dictionaries of its only piece and of the announcement.
abbrev first : Entries
first =
    entry (codes "m") (dict (entry (codes "ut_metadata") (int (pos 3)) empty))
      (entry (codes "metadata_size") (int (pos 5)) empty)

abbrev header : ℕ → Entries
header i = entry (codes "msg_type") (int (pos 1)) (entry (codes "piece") (int (pos i)) empty)

first-IsValue : IsValue (dict first)
unfolding program IsValue is_utf8
first-IsValue = (
  (refl, omega arith),
  ((refl, omega arith), omega arith, tt, tt),
  (refl, tt),
  ((refl, omega arith), omega arith, tt, tt),
)

header-IsHeader : (i : ℕ) → i < 1 → IsHeader display i (header i)
unfolding program IsValue is_utf8
header-IsHeader zero h = (
  ((refl, omega arith), omega arith, (refl, tt), ((refl, omega arith), omega arith, tt, tt)),
  omega arith,
  refl,
  refl,
)
header-IsHeader (suc i) h = absurd (omega arith)

fetch-serve_example :
    (fetch always display (replicate 20 7) false 2 start (
      frames (
        (20 ∷ 0 ∷ encode display (dict first))
        ∷ (20 ∷ 1 ∷ (encode display (dict (header 0)) ++ codes "abcde"))
        ∷ []))).result
    ≡ obtains (codes "abcde")
unfolding program pieces_from
fetch-serve_example =
    fetch-serve always display (replicate 20 7) false 1 first header (codes "abcde") 0 5 refl
      first-IsValue (omega arith) refl header-IsHeader (omega arith) (omega arith) (omega arith)
      (omega arith) refl
