-- ===== src/Util/Laws.antt =====
-- The encodings of src/util.rs are inverse to each other.
use mathlib.Core.Option
use native.Mathlib.Nat.{pow-suc}
use dht_spider.Prelude.{
  Option, ℕ, zero, suc, ◌+◌, ◌*◌, ◌/◌, ◌%◌, ◌^◌, ◌<◌, ◌≤◌, ◌≡◌, refl, ap, ◌∙◌, sym, true, none,
  some, List, [], ◌∷◌, ◌++◌, arith, Bytes, All, length, length-append, length-take, length-drop,
  Bool-cases, take, drop, take_of_length, drop-append, ◌==◌, ==_iff, Option-cases, inl, inr,
  append_assoc,
}
use dht_spider.Std.Bits.{bit_or-byte}
use dht_spider.Std.Net.{IpAddr, v4, v6, IsV4}
use dht_spider.Util.{
  encode_compact_ip_port, decode_compact_ip_port, low_bytes, first_nonzero, int2bytes, fold_bytes,
  bytes2int, NodeInfo, put, nodes_loop, decode_compact_nodes,
}

-- An IPv4 address and a port survive the compact form.
pub decode-encode_compact_ip_port :
    (ip : IpAddr) (port : ℕ) (bytes : Bytes)
    → port < 2 ^ 16
    → encode_compact_ip_port ip port ≡ some bytes
    → decode_compact_ip_port bytes ≡ some (ip, port)
unfolding encode_compact_ip_port decode_compact_ip_port
decode-encode_compact_ip_port (v6 s) port bytes hp e = cc
decode-encode_compact_ip_port (v4 a b c d) port bytes hp e =
    let e' : a ∷ b ∷ c ∷ d ∷ (port / 2 ^ 8 % 256) ∷ (port % 2 ^ 8) ∷ [] ≡ bytes = cc in
    let high : port / 2 ^ 8 % 256 * 2 ^ 8 % 2 ^ 16 ≡ port / 256 * 256 = omega arith in
    let low : port / 256 * 256 + port % 2 ^ 8 ≡ port = omega arith in
    rw (← e', high, bit_or-byte (port / 256) (port % 2 ^ 8) (omega arith), low) refl

fold_bytes-low_bytes :
    (n v : ℕ) (buf : Bytes)
    → v < 256 ^ n
    → v < 2 ^ 64
    → fold_bytes 0 (low_bytes n v buf) ≡ fold_bytes v buf
unfolding low_bytes fold_bytes
fold_bytes-low_bytes zero v buf h k = let e : v ≡ 0 = omega arith in rw e
fold_bytes-low_bytes (suc n) v buf h k =
    let whole : v / 2 ^ 8 * 2 ^ 8 % 2 ^ 64 ≡ v / 256 * 256 = omega arith in
    let sum : v / 256 * 256 + v % 2 ^ 8 ≡ v = omega arith in
    fold_bytes-low_bytes n (v / 2 ^ 8) ((v % 2 ^ 8) ∷ buf) (omega (arith, pow-suc 256 n))
      (omega arith)
    ∙ rw (fold_bytes, whole, bit_or-byte (v / 256) (v % 2 ^ 8) (omega arith), sum) refl

fold_bytes-zero : (bs : Bytes) → fold_bytes 0 (0 ∷ bs) ≡ fold_bytes 0 bs
unfolding fold_bytes
fold_bytes-zero bs = refl

-- Leading zeros do not count.
fold_bytes-drop-some :
    (bs : Bytes) (k : ℕ) → first_nonzero bs ≡ some k → fold_bytes 0 (drop k bs) ≡ fold_bytes 0 bs
unfolding first_nonzero
fold_bytes-drop-some bs zero h = refl
fold_bytes-drop-some [] (suc k) h = refl
fold_bytes-drop-some (b ∷ bs) (suc k) h =
    let zero' : b ≡ 0 = ground arith in
    let rest : first_nonzero bs ≡ some k = ground arith in
    rw (zero', fold_bytes-zero bs) (fold_bytes-drop-some bs k rest)

fold_bytes-drop-none : (bs : Bytes) (k : ℕ) → first_nonzero bs ≡ none → fold_bytes 0 (drop k bs) ≡ 0
unfolding first_nonzero fold_bytes
fold_bytes-drop-none [] zero h = refl
fold_bytes-drop-none [] (suc k) h = refl
fold_bytes-drop-none (b ∷ bs) zero h =
    let zero' : b ≡ 0 = ground arith in
    rw (zero', fold_bytes-zero bs) (fold_bytes-drop-none bs zero (ground arith))
fold_bytes-drop-none (b ∷ bs) (suc k) h = fold_bytes-drop-none bs k (ground arith)

-- A 64-bit number survives the minimal big-endian form.
bytes2int-int2bytes : (v : ℕ) → v < 2 ^ 64 → bytes2int (int2bytes v) ≡ v
unfolding bytes2int int2bytes
bytes2int-int2bytes v h =
    let buf : Bytes = low_bytes 8 v [] in
    let whole : fold_bytes 0 buf ≡ v =
      fold_bytes-low_bytes 8 v [] (omega arith) h ∙ unfold fold_bytes in refl in
    elim (Option-cases (first_nonzero buf)) [
      | inl e ↦ rw e (fold_bytes-drop-none buf 7 e ∙ sym (fold_bytes-drop-none buf 0 e) ∙ whole)
      | inr (k, e) ↦ rw e (fold_bytes-drop-some buf k e ∙ whole)
    ]

nodes_loop-All :
    (rounds i : ℕ) (input : Bytes)
    → (i + rounds) * 26 ≤ length input
    → All (λ (n : NodeInfo). length n.id ≡ 20) (nodes_loop rounds i input)
unfolding nodes_loop
nodes_loop-All zero i input h = tt
nodes_loop-All (suc rounds) i input h =
    let id = take 20 (drop (i * 26) input) in
    let len : length id ≡ 20 =
      omega (arith, length-take 20 (drop (i * 26) input), length-drop (i * 26) input) in
    kept id (decode_compact_ip_port (take 6 (drop (i * 26 + 20) input)))
      (nodes_loop rounds (i + 1) input) len (nodes_loop-All rounds (i + 1) input (omega arith))
  where
    kept :
        (id : Bytes) (o : Option (IpAddr × ℕ)) (rest : List NodeInfo)
        → length id ≡ 20
        → All (λ (n : NodeInfo). length n.id ≡ 20) rest
        → All (λ (n : NodeInfo). length n.id ≡ 20) (put id o rest)
    kept id none rest len h = h
    kept id (some (ip, port)) rest len h = (len, h)

-- Every id that is read has twenty bytes.
pub decode_compact_nodes-All :
    (input : Bytes) → All (λ (n : NodeInfo). length n.id ≡ 20) (decode_compact_nodes input)
unfolding decode_compact_nodes
decode_compact_nodes-All input = elim (Bool-cases (length input % 26 == 0)) [
  | inl aligned ↦ rw aligned (nodes_loop-All (length input / 26) 0 input (omega arith))
  | inr odd ↦ rw odd tt
]

-- No two 64-bit numbers have one form.
pub int2bytes-injective : (v w : ℕ) → v < 2 ^ 64 → w < 2 ^ 64 → int2bytes v ≡ int2bytes w → v ≡ w
int2bytes-injective v w hv hw e = cc (bytes2int-int2bytes v hv, bytes2int-int2bytes w hw)

-- The compact form of one IPv4 node: 20 bytes of id, then address and port.
unfoldable pub compact_node : NodeInfo → Bytes
compact_node n = n.id ++ Option.get_or (encode_compact_ip_port n.ip n.port) []

unfoldable pub compact_nodes : List NodeInfo → Bytes
unfolding compact_node
compact_nodes [] = []
compact_nodes (n ∷ ns) = compact_node n ++ compact_nodes ns

pub record IsCompact (n : NodeInfo) : Type 0 where
  pub id_length : length n.id ≡ 20
  pub ip_v4 : IsV4 n.ip
  pub port_u16 : n.port < 2 ^ 16

encode_compact-cases :
    (ip : IpAddr) (port : ℕ)
    → IsV4 ip
    → (bytes : Bytes) × (encode_compact_ip_port ip port ≡ some bytes) × (length bytes ≡ 6)
unfolding encode_compact_ip_port
encode_compact-cases (v4 a b c d) port h = (_, refl, refl)
encode_compact-cases (v6 s) port h = absurd h

nodes_loop-compact :
    (ns : List NodeInfo) (i : ℕ) (input : Bytes)
    → All IsCompact ns
    → drop (i * 26) input ≡ compact_nodes ns
    → nodes_loop (length ns) i input ≡ ns
unfolding nodes_loop compact_nodes
nodes_loop-compact [] i input h e = refl
nodes_loop-compact (n ∷ ns) i input h e =
    let (bytes, encoded, six) = encode_compact-cases n.ip n.port h.0.ip_v4 in
    let e1 : drop (i * 26) input ≡ n.id ++ (bytes ++ compact_nodes ns) =
      e ∙ rw encoded (append_assoc n.id bytes (compact_nodes ns)) in
    let len = h.0.id_length in
    let base : i * 26 + length n.id ≡ i * 26 + 20 = omega arith in
    let e2 : drop (i * 26 + 20) input ≡ bytes ++ compact_nodes ns =
      rw (← base) (drop-append (i * 26) input n.id (bytes ++ compact_nodes ns) e1) in
    let next : i * 26 + 20 + length bytes ≡ (i + 1) * 26 = omega arith in
    let e3 : drop ((i + 1) * 26) input ≡ compact_nodes ns =
      rw (← next) (drop-append (i * 26 + 20) input bytes (compact_nodes ns) e2) in
    let id' : take 20 (drop (i * 26) input) ≡ n.id =
      rw e1 (take_of_length 20 n.id (bytes ++ compact_nodes ns) len) in
    let info : take 6 (drop (i * 26 + 20) input) ≡ bytes =
      rw e2 (take_of_length 6 bytes (compact_nodes ns) six) in
    rw (id', info, decode-encode_compact_ip_port n.ip n.port bytes h.0.port_u16 encoded)
      (ap (◌∷◌ n) (nodes_loop-compact ns (i + 1) input h.1 e3))

length-compact_nodes :
    (ns : List NodeInfo) → All IsCompact ns → length (compact_nodes ns) ≡ length ns * 26
unfolding compact_nodes
length-compact_nodes [] h = refl
length-compact_nodes (n ∷ ns) h =
    let (bytes, encoded, six) = encode_compact-cases n.ip n.port h.0.ip_v4 in
    rw encoded (
      omega (
        arith,
        length-append (n.id ++ bytes) (compact_nodes ns),
        length-append n.id bytes,
        h.0.id_length,
        length-compact_nodes ns h.1,
      ))

-- A list of IPv4 nodes survives the compact form, 26 bytes for each.
pub decode_compact_nodes-compact_nodes :
    (ns : List NodeInfo) → All IsCompact ns → decode_compact_nodes (compact_nodes ns) ≡ ns
unfolding decode_compact_nodes
decode_compact_nodes-compact_nodes ns h =
    let len = length-compact_nodes ns h in
    let aligned : (length (compact_nodes ns) % 26 == 0) ≡ true = (==_iff _ _).1 (omega arith) in
    let rounds : length (compact_nodes ns) / 26 ≡ length ns = omega arith in
    rw (aligned, rounds) (nodes_loop-compact ns 0 (compact_nodes ns) h refl)
