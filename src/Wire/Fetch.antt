-- ===== src/Wire/Fetch.antt =====
-- `fetch_metadata` of src/wire.rs from the connection to its end. What comes from the peer is a
-- list of bytes, behind which the stream stalls or is closed. The hash of the crate sha1 is a
-- parameter.
use dht_spider.Prelude.{
  ℕ, zero, suc, Bool, Option, none, some, List, [], ◌∷◌, ◌++◌, Bytes, codes, map, if◌then◌else◌,
}
use dht_spider.Std.Decimal.{pos}
use dht_spider.Std.Net.{IpAddr}
use dht_spider.Bencode.Value.{int, dict_of}
use dht_spider.Bencode.Encode.{Itoa, encode}
use dht_spider.BlackList as BlackList
use dht_spider.BlackList.{BlackList}
use dht_spider.Wire.Frame.{send_message, read_message, read_exact, handshake, is_handshake}
use dht_spider.Wire.Download.{
  extended, Download, start, Outcome, waits, rejects, finishes, out_of_fuel, on_message,
}
use dht_spider.Wire.Queue.{Request}

-- How the task ends; `runs`: it is still at work when the fuel is used up.
pub data Fetched : Type 0 where
  fails runs : Fetched
  obtains : Bytes → Fetched

-- With what was written to the socket, and the peers that were reported.
pub record Work : Type 0 where
  pub result : Fetched
  pub written : List Bytes
  pub peers : List (IpAddr × ℕ)

abbrev pub idle : Fetched → Work
idle result = record { result = result; written = []; peers = [] }

abbrev pub behind : List Bytes → List (IpAddr × ℕ) → Work → Work
behind written peers w = record {
  result = w.result;
  written = written ++ w.written;
  peers = peers ++ w.peers;
}

-- An established connection: whether the handshake is written in time and the next message without
-- an error, and what the peer sends.
pub record Connection : Type 0 where
  pub in_time : Bool
  pub sends : Bool
  pub stream : Bytes
  pub closed : Bool

-- The message that follows the handshake.
unfoldable pub extended_handshake : Itoa → Bytes
unfolding dict_of
extended_handshake itoa =
    extended
    ∷ 0
    ∷ encode itoa (
        dict_of (
          (
            codes "m",
            dict_of ((codes "ut_metadata", int (pos 1)) ∷ (codes "ut_pex", int (pos 1)) ∷ []),
          )
          ∷ []))

module _ (sha1 : Bytes → Bytes) (itoa : Itoa) (info_hash : Bytes) where
  abbrev pub next : (Download → Work) → Outcome → Work
  next rest (waits d out peers) = behind (map send_message out) peers (rest d)
  next rest rejects = idle fails
  next rest (finishes metadata) = idle (obtains metadata)
  next rest out_of_fuel = idle runs

  abbrev pub received : (Download → Bytes → Work) → Download → Option (ℕ × Bytes × Bytes) → Work
  received rest d none = idle fails
  received rest d (some (size, payload, stream)) =
      next (λ d'. rest d' stream) (on_message sha1 info_hash itoa d payload)

  -- The loop, a message for each unit of fuel.
  unfoldable pub fetch : Bool → ℕ → Download → Bytes → Work
  unfolding read_message send_message on_message
  fetch closed zero d stream = idle runs
  fetch closed (suc fuel) d stream =
      let rest = fetch closed fuel in received rest d (read_message closed stream)

  -- The peer's handshake, read into 68 bytes.
  unfoldable pub shake : ℕ → Connection → Option (Bytes × Bytes) → Work
  unfolding fetch extended_handshake send_message is_handshake
  shake fuel c none = idle fails
  shake fuel c (some (resp, stream)) =
      if is_handshake resp
      then (if c.sends
          then behind (send_message (extended_handshake itoa) ∷ []) []
              (fetch c.closed fuel start stream)
          else idle fails)
      else idle fails

module _ (sha1 : Bytes → Bytes) (itoa : Itoa) where
  -- A peer that no connection leads to goes to the blacklist.
  unfoldable pub fetch_metadata :
      ℕ → BlackList → ℕ → Bytes → Request → Option Connection → Work × BlackList
  unfolding BlackList.insert shake handshake
  fetch_metadata fuel bl now peer_id r none =
      (idle fails, BlackList.insert bl now r.ip (some r.port))
  fetch_metadata fuel bl now peer_id r (some c) = (
    behind (handshake r.info_hash peer_id ∷ []) [] (
        if c.in_time
        then shake sha1 itoa r.info_hash fuel c (read_exact 68 c.closed c.stream)
        else idle fails),
    bl,
  )
