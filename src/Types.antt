-- ===== src/Types.antt =====
-- src/types.rs: nodes, peers, errors, and how an info hash is read. `hex::decode`, of the crate
-- hex, is a parameter: the bytes, or the error's text.
mod Tests
use dht_spider.Prelude.{
  ℕ, String, Option, none, some, Bytes, length, ◌==◌, if◌then◌else◌, ◌⊎◌, inl, inr,
}
use dht_spider.Std.Net.{IpAddr, SocketAddr}

-- `NodeId` wraps the twenty bytes; `Instant` is a number.
pub record Node : Type 0 where
  pub id : Bytes
  pub addr : SocketAddr
  pub last_active : ℕ

pub record Peer : Type 0 where
  pub ip : IpAddr
  pub port : ℕ
  pub token : Option Bytes

pub data Mode : Type 0 where
  standard crawl : Mode

pub data DhtError : Type 0 where
  not_ready get_peers_response_not_set invalid_info_hash : DhtError
  io : String → DhtError
  bencode : Bytes → DhtError

-- `out_of_fuel` has no counterpart in the program.
pub data Result {ℓ} (A : Type ℓ) : Type ℓ where
  ok : A → Result A
  err : DhtError → Result A
  out_of_fuel : Result A

infixl 5 ◌>>=◌
abbrev pub ◌>>=◌ {ℓ κ} : {A : Type ℓ} {B : Type κ} → Result A → (A → Result B) → Result B
ok a >>= f = f a
err e >>= f = err e
out_of_fuel >>= f = out_of_fuel

abbrev from_hex : Bytes ⊎ Bytes → Result Bytes
from_hex (inl bytes) = ok bytes
from_hex (inr message) = err (bencode message)

-- `s.len()` is the length in bytes.
unfoldable pub decode_info_hash : (Bytes → Bytes ⊎ Bytes) → Bytes → Result Bytes
decode_info_hash hex_decode s = do
  bytes ← if length s == 40 then from_hex (hex_decode s) else ok s
  if length bytes == 20 then ok bytes else err invalid_info_hash

abbrev pub token_expiry : ℕ
token_expiry = 600
