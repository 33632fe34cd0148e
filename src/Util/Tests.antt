-- ===== src/Util/Tests.antt =====
-- Runs of the encodings, and the theorems at concrete inputs.
use dht_spider.Prelude.{◌≡◌, refl, List, [], ◌∷◌, arith, none, replicate}
use dht_spider.Std.Net.{v4, v6}
use dht_spider.Util.{encode_compact_ip_port, int2bytes, NodeInfo, decode_compact_nodes}
use dht_spider.Util.Laws.{compact_nodes, decode_compact_nodes-compact_nodes}

int2bytes_runs : (int2bytes 0 ≡ 0 ∷ []) × (int2bytes 66051 ≡ 1 ∷ 2 ∷ 3 ∷ [])
unfolding int2bytes
int2bytes_runs = (refl, refl)

encode_compact_v6 : encode_compact_ip_port (v6 (replicate 16 0)) 80 ≡ none
unfolding encode_compact_ip_port
encode_compact_v6 = refl

misaligned : decode_compact_nodes (replicate 27 1) ≡ []
unfolding decode_compact_nodes
misaligned = refl

abbrev two_nodes : List NodeInfo
two_nodes =
    record { id = replicate 20 7; ip = v4 10 0 0 1; port = 6881 }
    ∷ record { id = replicate 20 9; ip = v4 192 168 1 2; port = 80 }
    ∷ []

decode_compact_nodes-compact_nodes_example :
    decode_compact_nodes (compact_nodes two_nodes) ≡ two_nodes
decode_compact_nodes-compact_nodes_example =
    decode_compact_nodes-compact_nodes two_nodes (omega arith)
