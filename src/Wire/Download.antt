-- ===== src/Wire/Download.antt =====
-- The loop of `fetch_metadata` of src/wire.rs, one message at a time. The hash of the crate sha1 is
-- a parameter.
use dht_spider.Prelude as Prelude
use dht_spider.Prelude.{
  ℕ, zero, suc, ◌+◌, ◌-◌, ◌*◌, ◌/◌, ◌%◌, ◌^◌, Bool, true, false, not, ◌&&◌, ◌||◌, Option, none,
  some, List, [], ◌∷◌, ◌++◌, Bytes, codes, length, replicate, ltb, ◌==◌, if◌then◌else◌,
}
use dht_spider.Std.Decimal.{ℤ, pos, negsuc, as_usize}
use dht_spider.Std.Order.{bytes_eq}
use dht_spider.Std.Net.{IpAddr, v4}
use dht_spider.Bencode.Value as Value
use dht_spider.Bencode.Value.{BVal, bytes, int, list, dict, Entries, get, dict_of}
use dht_spider.Bencode.Decode.{decode_dict, fuel_for, slice}
use dht_spider.Bencode.Encode.{Itoa, encode}

abbrev pub block : ℕ
block = 16384

abbrev pub max_metadata_size : ℕ
max_metadata_size = block * 1000

abbrev pub extended : ℕ
extended = 20

pub record Download : Type 0 where
  pub pieces : Option (List Bytes)
  pub pieces_num : ℕ
  pub metadata_size : ℕ
  pub ut_pex_id : Option ℤ

abbrev pub start : Download
start = record { pieces = none; pieces_num = 0; metadata_size = 0; ut_pex_id = none }

-- What one message leads to: the next round, with the messages to send and the peers to report; an
-- error; or the metadata. `out_of_fuel` has no counterpart in the program.
pub data Outcome : Type 0 where
  waits : Download → List Bytes → List (IpAddr × ℕ) → Outcome
  rejects : Outcome
  finishes : Bytes → Outcome
  out_of_fuel : Outcome

abbrev pub quiet : Download → Outcome
quiet d = waits d [] []

abbrev pub int_of : Option BVal → Option ℤ
int_of none = none
int_of (some (int n)) = some n
int_of (some (bytes b)) = none
int_of (some (list l)) = none
int_of (some (dict m)) = none

-- `m.get("m").and_then(..)`, then the extension's number
abbrev extension_id : Bytes → Option BVal → Option ℤ
extension_id name none = none
extension_id name (some (dict mm)) = int_of (get name mm)
extension_id name (some (int n)) = none
extension_id name (some (bytes b)) = none
extension_id name (some (list l)) = none

module _ (itoa : Itoa) where
  unfoldable pub piece_request : ℤ → ℕ → Bytes
  unfolding dict_of
  piece_request ut_meta i =
      extended
      ∷ (as_usize ut_meta % 256)
      ∷ encode itoa (dict_of ((codes "msg_type", int (pos 0)) ∷ (codes "piece", int (pos i)) ∷ []))

  unfoldable pub requests_from : ℤ → ℕ → ℕ → List Bytes
  unfolding piece_request
  requests_from ut_meta zero i = []
  requests_from ut_meta (suc rounds) i =
      piece_request ut_meta i ∷ requests_from ut_meta rounds (i + 1)

  abbrev requests : Option ℤ → ℕ → List Bytes
  requests none pieces_num = []
  requests (some ut_meta) pieces_num = requests_from ut_meta pieces_num 0

  -- The peer's extended handshake announces the size: the pieces are asked for.
  unfoldable pub on_size : Entries → ℕ → Outcome
  unfolding requests_from
  on_size m meta_size =
      let ut_meta_id = extension_id (codes "ut_metadata") (get (codes "m") m) in
      let pieces_num = meta_size / block + (if meta_size % block == 0 then 0 else 1) in
      if ltb max_metadata_size meta_size
      then rejects
      else waits
          (record {
            pieces = some (replicate pieces_num []);
            pieces_num = pieces_num;
            metadata_size = meta_size;
            ut_pex_id = extension_id (codes "ut_pex") (get (codes "m") m);
          })
          (requests ut_meta_id pieces_num) []

  abbrev pub on_announced : Entries → Option ℤ → Outcome
  on_announced m none = rejects
  on_announced m (some n) = on_size m (as_usize n)

  abbrev pub on_decoded : Value.Result (Entries × ℕ) → Outcome
  on_decoded (Value.ok (m, index)) = on_announced m (int_of (get (codes "metadata_size") m))
  on_decoded (Value.err e) = rejects
  on_decoded Value.out_of_fuel = out_of_fuel

  unfoldable pub on_handshake : Option (List Bytes) → Bytes → Outcome
  unfolding on_size
  on_handshake (some all) rest = rejects
  on_handshake none rest = on_decoded (decode_dict (fuel_for rest) rest 0)

-- `pieces_num - 1` wraps where there are no pieces.
abbrev pub is_last : ℕ → ℕ → Bool
is_last piece pieces_num = piece == (pieces_num + 2 ^ 64 - 1) % 2 ^ 64

abbrev pub bad_size : Download → ℕ → ℕ → Bool
bad_size d piece piece_len =
    (not (is_last piece d.pieces_num) && not (piece_len == block))
    || (is_last piece d.pieces_num && not (piece_len == d.metadata_size % block))

abbrev pub is_filled : Bytes → Bool
is_filled [] = false
is_filled (b ∷ bs) = true

unfoldable pub all_filled : List Bytes → Bool
all_filled [] = true
all_filled (p ∷ ps) = is_filled p && all_filled ps

-- `all.concat()`
unfoldable pub concat : List Bytes → Bytes
concat [] = []
concat (p ∷ ps) = p ++ concat ps

-- The compact peers of a `ut_pex` message, six bytes each; fewer at the end are dropped.
unfoldable pub pex_peers : Bytes → List (IpAddr × ℕ)
pex_peers (a ∷ b ∷ c ∷ d ∷ p ∷ q ∷ added) = (v4 a b c d, p * 256 + q) ∷ pex_peers added
pex_peers added = []

abbrev pub added_of : Option BVal → List (IpAddr × ℕ)
added_of none = []
added_of (some (bytes added)) = pex_peers added
added_of (some (int n)) = []
added_of (some (list l)) = []
added_of (some (dict m)) = []

abbrev pub same_id : ℕ → Option ℤ → Bool
same_id ext_id none = false
same_id ext_id (some (pos n)) = ext_id == n
same_id ext_id (some (negsuc n)) = false

abbrev pub is_data : Option BVal → Bool
is_data none = false
is_data (some (int (pos n))) = n == 1
is_data (some (int (negsuc n))) = false
is_data (some (bytes b)) = false
is_data (some (list l)) = false
is_data (some (dict m)) = false

module _ (sha1 : Bytes → Bytes) (info_hash : Bytes) where
  -- All the pieces that are there so far.
  unfoldable pub complete : Download → List Bytes → Outcome
  unfolding all_filled concat bytes_eq
  complete d all =
      if all_filled all
      then (if bytes_eq (sha1 (concat all)) info_hash then finishes (concat all) else rejects)
      else quiet (record d { pieces = some all })

  unfoldable pub on_piece : Download → List Bytes → ℕ → Bytes → Outcome
  unfolding complete
  on_piece d all piece chunk =
      if bad_size d piece (length chunk)
      then rejects
      else complete d (if ltb piece (length all) then Prelude.set all piece chunk else all)

  abbrev pub on_numbered : Download → List Bytes → Option ℤ → Bytes → Outcome
  on_numbered d all none chunk = rejects
  on_numbered d all (some n) chunk = on_piece d all (as_usize n) chunk

  -- The dictionary of a message is followed by the piece, up to the message's end.
  abbrev pub on_dictionary :
      Download → ℕ → Bytes → List Bytes → Value.Result (Entries × ℕ) → Outcome
  on_dictionary d ext_id rest all (Value.ok (m, index)) =
      if is_data (get (codes "msg_type") m)
      then on_numbered d all (int_of (get (codes "piece") m)) (slice rest index (length rest))
      else waits d [] (if same_id ext_id d.ut_pex_id then added_of (get (codes "added") m) else [])
  on_dictionary d ext_id rest all (Value.err e) = rejects
  on_dictionary d ext_id rest all Value.out_of_fuel = out_of_fuel

  unfoldable pub on_data : Download → ℕ → Bytes → Option (List Bytes) → Outcome
  unfolding on_piece pex_peers
  on_data d ext_id rest none = rejects
  on_data d ext_id rest (some all) =
      on_dictionary d ext_id rest all (decode_dict (fuel_for rest) rest 0)

  -- One payload; that of a message of length 0 is empty.
  unfoldable pub on_message : Itoa → Download → Bytes → Outcome
  unfolding on_handshake on_data
  on_message itoa d [] = quiet d
  on_message itoa d (msg_type ∷ []) = if msg_type == extended then rejects else quiet d
  on_message itoa d (msg_type ∷ ext_id ∷ rest) =
      if msg_type == extended
      then (if ext_id == 0 then on_handshake itoa d.pieces rest else on_data d ext_id rest d.pieces)
      else quiet d
