-- ===== src/Util.antt =====
-- src/util.rs: compact addresses and nodes (BEP-5), and minimal big-endian numbers.
pub mod Laws
mod Tests
use mathlib.Core.Option
use dht_spider.Prelude.{
  ℕ, zero, suc, ◌+◌, ◌-◌, ◌*◌, ◌/◌, ◌%◌, ◌^◌, bit_or, Bool, true, false, Option, none, some, List,
  [], ◌∷◌, Bytes, length, get_or, take, drop, ◌==◌, if◌then◌else◌,
}
use dht_spider.Std.Net.{IpAddr, v4, v6}

-- `port >> 8` and `port & 0xff`, as bytes
unfoldable pub encode_compact_ip_port : IpAddr → ℕ → Option Bytes
encode_compact_ip_port (v4 a b c d) port =
    some (a ∷ b ∷ c ∷ d ∷ (port / 2 ^ 8 % 256) ∷ (port % 2 ^ 8) ∷ [])
encode_compact_ip_port (v6 s) port = none

unfoldable pub decode_compact_ip_port : Bytes → Option (IpAddr × ℕ)
decode_compact_ip_port info =
    let at = λ (i : ℕ). get_or info i 0 in
    if length info == 6
    then some (v4 (at 0) (at 1) (at 2) (at 3), bit_or (at 4 * 2 ^ 8 % 2 ^ 16) (at 5))
    else none

-- The loop of `int2bytes` fills the buffer from its last byte.
unfoldable pub low_bytes : ℕ → ℕ → Bytes → Bytes
low_bytes zero val buf = buf
low_bytes (suc rounds) val buf = low_bytes rounds (val / 2 ^ 8) ((val % 2 ^ 8) ∷ buf)

-- `position(|&b| b != 0)`
unfoldable pub first_nonzero : Bytes → Option ℕ
first_nonzero [] = none
first_nonzero (b ∷ bs) = if b == 0 then Option.map suc (first_nonzero bs) else some 0

unfoldable pub int2bytes : ℕ → Bytes
unfolding low_bytes first_nonzero
int2bytes val = let buf = low_bytes 8 val [] in drop (Option.get_or (first_nonzero buf) 7) buf

unfoldable pub fold_bytes : ℕ → Bytes → ℕ
fold_bytes acc [] = acc
fold_bytes acc (b ∷ bs) = fold_bytes (bit_or (acc * 2 ^ 8 % 2 ^ 64) b) bs

unfoldable pub bytes2int : Bytes → ℕ
unfolding fold_bytes
bytes2int input = fold_bytes 0 input

pub record NodeInfo : Type 0 where
  pub id : Bytes
  pub ip : IpAddr
  pub port : ℕ

abbrev pub put : Bytes → Option (IpAddr × ℕ) → List NodeInfo → List NodeInfo
put id none rest = rest
put id (some (ip, port)) rest = record { id = id; ip = ip; port = port } ∷ rest

-- `for i in 0..(data.len() / 26)`, by the rounds left
unfoldable pub nodes_loop : ℕ → ℕ → Bytes → List NodeInfo
nodes_loop zero i input = []
nodes_loop (suc rounds) i input =
    let base = i * 26 in
    put (take 20 (drop base input)) (decode_compact_ip_port (take 6 (drop (base + 20) input)))
      (nodes_loop rounds (i + 1) input)

unfoldable pub decode_compact_nodes : Bytes → List NodeInfo
unfolding nodes_loop decode_compact_ip_port
decode_compact_nodes input =
    if length input % 26 == 0 then nodes_loop (length input / 26) 0 input else []
