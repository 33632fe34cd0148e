-- ===== src/Dht/FoundKeeps.antt =====
-- The nodes and the peers that a response lists leave the node's tables well formed.
use dht_spider.Prelude.{
  All-weaken, length, ◌≡◌, ℕ, Bool, ◌&&◌, Option, none, some, arith, Bytes, codes, leb, Bool-cases,
  inl, inr,
}
use dht_spider.Std.Net.{IpAddr}
use dht_spider.Std.Display.{ip_string}
use dht_spider.Util.Laws.{decode_compact_nodes-All}
use dht_spider.Util.{NodeInfo, decode_compact_nodes}
use dht_spider.Bencode.Value.{BVal, bytes, int, list, dict, Items, nil, item}
use dht_spider.BlackList as BlackList
use dht_spider.Transaction.{Transaction, get_by_index}
use dht_spider.Routing.Table.{len}
use dht_spider.Config.{Config}
use dht_spider.Dht.{Dht, node_found, Outside, and_then, emits, as_bytes, add_node}
use dht_spider.Dht.Response.{
  info_hash_of, target_of, is_kind, is_unknown, address_text, go_on_get_peers, go_on_find_node,
  added, on_found, found_nodes, peer_at, keep_peer, on_values, found_peers,
}
use dht_spider.Dht.Acts.{Keeps, behind-Keeps, and_then-Keeps, each-KeepsAll}
use dht_spider.Dht.Invariant.{IsDht, IsAdded, ask-IsDht, finish-IsDht, peer-IsDht, add_node-IsAdded}

module _ (o : Outside) (cfg : Config) where
  go_on_get_peers-IsDht :
      (now : ℕ) (n : NodeInfo) (ih : Option Bytes) (d : Dht)
      → IsDht cfg d
      → IsDht cfg (go_on_get_peers o now n ih d).0
  go_on_get_peers-IsDht now n none d h = h
  go_on_get_peers-IsDht now n (some ih) d h =
      elim (Bool-cases
        (is_unknown (get_by_index d.trans (codes "get_peers") (address_text n.ip n.port)))) [
          | inl new ↦ rw new (ask-IsDht cfg d h o now _ _ _ _ _ _)
          | inr old ↦ rw old h
        ]

  go_on_find_node-IsDht :
      (now : ℕ) (n : NodeInfo) (b : Bool) (target : Option Bytes) (d : Dht)
      → IsDht cfg d
      → IsDht cfg (go_on_find_node o now n b target d).0
  go_on_find_node-IsDht now n b none d h = h
  go_on_find_node-IsDht now n b (some target) d h =
      elim (Bool-cases
        (b && is_unknown (get_by_index d.trans (codes "find_node") (address_text n.ip n.port)))) [
          | inl new ↦ rw new (ask-IsDht cfg d h o now _ _ _ _ _ _)
          | inr old ↦ rw old h
        ]

  added-Keeps :
      (now : ℕ) (trans : Option Transaction) (d : Dht) (n : NodeInfo) (h : IsDht cfg d)
      (r : Option Dht)
      → IsAdded cfg d h r
      → Keeps (IsDht cfg) (added o now trans n r)
  added-Keeps now trans d n h none k = absurd k
  added-Keeps now trans d n h (some d') k =
      behind-Keeps (IsDht cfg)
        (emits d'.callbacks.on_node (node_found (o.hex_encode n.id) (ip_string n.ip) n.port))
        (and_then (some (go_on_get_peers o now n (info_hash_of trans) d')) λ d2.
          some (go_on_find_node o now n (is_kind (codes "find_node") trans) (target_of trans) d2))
        (and_then-Keeps (IsDht cfg) (some (go_on_get_peers o now n (info_hash_of trans) d'))
          (λ d2.
            some (go_on_find_node o now n (is_kind (codes "find_node") trans) (target_of trans) d2))
          (go_on_get_peers-IsDht now n (info_hash_of trans) d' k)
          (go_on_find_node-IsDht now n (is_kind (codes "find_node") trans) (target_of trans)))

  on_found-Keeps :
      (now : ℕ) (trans : Option Transaction) (n : NodeInfo)
      → length n.id ≡ 20
      → (d : Dht) → IsDht cfg d
      → Keeps (IsDht cfg) (on_found o now trans d n)
  unfolding on_found
  on_found-Keeps now trans n id d h =
      elim (Bool-cases (BlackList.contains d.blacklist now (ip_string n.ip) (some n.port))) [
        | inl banned ↦ rw banned h
        | inr free ↦ elim (Bool-cases (leb d.cfg.max_nodes (len d.routing))) [
          | inl full ↦ rw (free, full) h
          | inr room ↦
              let e = h.same_config in
              rw (free, room)
                (added-Keeps now trans d n h
                  (add_node now n.id (record { ip = n.ip; port = n.port }) d)
                  (add_node-IsAdded cfg d h now n.id (record { ip = n.ip; port = n.port }) id
                    (ground arith)))
        ]
      ]

  pub found_nodes-Keeps :
      (now : ℕ) (trans : Option Transaction) (nodes : Option Bytes) (d : Dht)
      → IsDht cfg d
      → Keeps (IsDht cfg) (found_nodes o now trans nodes d)
  found_nodes-Keeps now trans none d h = h
  found_nodes-Keeps now trans (some nodes) d h =
      let ns = decode_compact_nodes nodes in
      each-KeepsAll (IsDht cfg) (on_found o now trans) ns
        (All-weaken (λ (n : NodeInfo). length n.id ≡ 20)
          (λ (n : NodeInfo). (d : Dht) → IsDht cfg d → Keeps (IsDht cfg) (on_found o now trans d n))
          ns (on_found-Keeps now trans) (decode_compact_nodes-All nodes))
        d h

  keep_peer-IsDht :
      (ih : Bytes) (p : Option (IpAddr × ℕ)) (d : Dht)
      → IsDht cfg d
      → IsDht cfg (keep_peer o ih p d).0
  keep_peer-IsDht ih none d h = h
  keep_peer-IsDht ih (some (ip, port)) d h =
      peer-IsDht cfg d h ih (record { ip = ip; port = port; token = none })

  on_values-IsDht :
      (ih : Bytes) (vs : Items) (d : Dht) → IsDht cfg d → IsDht cfg (on_values o ih vs d).0
  unfolding on_values
  on_values-IsDht ih nil d h = h
  on_values-IsDht ih (item v vs) d h =
      on_values-IsDht ih vs (keep_peer o ih (peer_at (as_bytes (some v))) d).0
        (keep_peer-IsDht ih (peer_at (as_bytes (some v))) d h)

  pub found_peers-IsDht :
      (t : Bytes) (ih : Option Bytes) (v : Option BVal) (d : Dht)
      → IsDht cfg d
      → IsDht cfg (found_peers o t ih v d).0
  found_peers-IsDht t (some ih) (some (list vs)) d h =
      finish-IsDht cfg (on_values o ih vs d).0 (on_values-IsDht ih vs d h) t
  found_peers-IsDht t (some ih) (some (bytes b)) d h = h
  found_peers-IsDht t (some ih) (some (int n)) d h = h
  found_peers-IsDht t (some ih) (some (dict m)) d h = h
  found_peers-IsDht t (some ih) none d h = h
  found_peers-IsDht t none v d h = h
