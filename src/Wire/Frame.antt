-- ===== src/Wire/Frame.antt =====
-- The framing of messages and the handshake of src/wire.rs.
use dht_spider.Prelude.{
  Bool, ℕ, ◌+◌, ◌*◌, ◌/◌, ◌%◌, ◌^◌, bit_and, not, ◌&&◌, Option, none, some, [], ◌∷◌, ◌++◌, Bytes,
  codes, length, get_or, take, drop, replicate, ◌-◌, leb, ltb, ◌==◌, if◌then◌else◌,
}
use dht_spider.Std.Order.{bytes_eq}

-- `to_be_bytes` and `from_be_bytes` of a `u32`
abbrev pub to_be_bytes : ℕ → Bytes
to_be_bytes n = (n / 2 ^ 24 % 256) ∷ (n / 2 ^ 16 % 256) ∷ (n / 2 ^ 8 % 256) ∷ (n % 256) ∷ []

abbrev pub from_be_bytes : ℕ → ℕ → ℕ → ℕ → ℕ
from_be_bytes a b c d = a * 2 ^ 24 + b * 2 ^ 16 + c * 2 ^ 8 + d

-- What `send_message` writes.
unfoldable pub send_message : Bytes → Bytes
send_message input = to_be_bytes (length input % 2 ^ 32) ++ input

-- `timeout(.., stream.read_exact(buf)).await`, whose error is the timeout's alone: if the stream is
-- at its end or broken, the buffer keeps its zeros behind what was there, and the code goes on.
-- `none`: the time is over before all the bytes are there.
abbrev pub read_exact : ℕ → Bool → Bytes → Option (Bytes × Bytes)
read_exact n closed stream =
    if leb n (length stream)
    then some (take n stream, drop n stream)
    else if closed
    then some (stream ++ replicate (n - length stream) 0, [])
    else none

abbrev pub read_payload : ℕ → Option (Bytes × Bytes) → Option (ℕ × Bytes × Bytes)
read_payload size none = none
read_payload size (some (payload, stream)) = some (size, payload, stream)

abbrev pub read_sized : Bool → Option (Bytes × Bytes) → Option (ℕ × Bytes × Bytes)
read_sized closed none = none
read_sized closed (some (len_buf, stream)) =
    let size =
      from_be_bytes (get_or len_buf 0 0) (get_or len_buf 1 0) (get_or len_buf 2 0)
        (get_or len_buf 3 0) in
    if size == 0
    then some (0, [], stream)
    else if ltb 1048576 size
    then none
    else read_payload size (read_exact size closed stream)

-- What `read_message` makes of the bytes that arrive before the stream stalls or, if it is
-- `closed`, ends: the length, the payload, and what is left. `none` is an error.
unfoldable pub read_message : Bool → Bytes → Option (ℕ × Bytes × Bytes)
read_message closed stream = read_sized closed (read_exact 4 closed stream)

abbrev pub handshake_prefix : Bytes
handshake_prefix = 19 ∷ codes "BitTorrent protocol" ++ 0 ∷ 0 ∷ 0 ∷ 0 ∷ 0 ∷ 16 ∷ 0 ∷ 1 ∷ []

unfoldable pub handshake : Bytes → Bytes → Bytes
handshake info_hash peer_id = handshake_prefix ++ (info_hash ++ peer_id)

-- The answer has 68 bytes.
unfoldable pub is_handshake : Bytes → Bool
unfolding bytes_eq
is_handshake resp =
    get_or resp 0 0 == 19
    && bytes_eq (take 19 (drop 1 resp)) (codes "BitTorrent protocol")
    && not (bit_and (get_or resp 25 0) 16 == 0)
