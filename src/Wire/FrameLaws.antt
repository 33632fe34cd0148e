-- ===== src/Wire/FrameLaws.antt =====
-- What is sent is what is read.
use dht_spider.Prelude.{
  ℕ, suc, ◌/◌, ◌%◌, ◌^◌, ◌<◌, ◌≤◌, ◌≡◌, refl, Bool, true, false, some, ◌++◌, arith, Bytes, length,
  length-append, take-length-append, drop-length-append, leb, ltb, ◌==◌,
}
use dht_spider.Wire.Frame.{from_be_bytes, send_message, read_message, handshake, is_handshake}

be_bytes :
    (n : ℕ)
    → n < 2 ^ 32
    → from_be_bytes (n / 2 ^ 24 % 256) (n / 2 ^ 16 % 256) (n / 2 ^ 8 % 256) (n % 256) ≡ n
be_bytes n h = omega arith

-- A message of at most a megabyte that was sent is read, whole and alone, whatever follows it; a
-- larger one is refused.
pub read_message-send_message :
    (closed : Bool) (input rest : Bytes)
    → 0 < length input
    → length input ≤ 1048576
    → read_message closed (send_message input ++ rest) ≡ some (length input, input, rest)
unfolding read_message send_message
read_message-send_message closed input rest pos small =
    let n = length input in
    let header : leb 4 (suc (suc (suc (suc (length (input ++ rest)))))) ≡ true = ground arith in
    let fits : n % 2 ^ 32 ≡ n = omega arith in
    let size = be_bytes n (omega arith) in
    let nonzero : (n == 0) ≡ false = ground arith in
    let allowed : ltb 1048576 n ≡ false = ground arith in
    let there : leb n (length (input ++ rest)) ≡ true = ground (arith, length-append input rest) in
    rw
      (
        header,
        fits,
        size,
        nonzero,
        allowed,
        there,
        take-length-append input rest,
        drop-length-append input rest,
      )
      refl

-- The program's own handshake is one that it accepts.
pub is_handshake-handshake :
    (info_hash peer_id : Bytes) → is_handshake (handshake info_hash peer_id) ≡ true
unfolding is_handshake handshake
is_handshake-handshake info_hash peer_id = refl
