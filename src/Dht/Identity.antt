-- ===== src/Dht/Identity.antt =====
-- The id that a node has for a target stays while it takes up what a response lists.
use mathlib.Core.Option
use dht_spider.Prelude.{
  ℕ, ◌≡◌, Bool, ◌&&◌, Option, none, some, List, [], ◌∷◌, Bytes, codes, leb, Bool-cases, inl, inr,
}
use dht_spider.Std.Display.{ip_string}
use dht_spider.Util.{NodeInfo, decode_compact_nodes}
use dht_spider.Bencode.Value.{BVal, bytes, int, list, dict, Items, nil, item}
use dht_spider.BlackList as BlackList
use dht_spider.Transaction.{Transaction, get_by_index}
use dht_spider.Routing.Table.{RoutingTable, len}
use dht_spider.Routing.Table as Table
use dht_spider.Std.Net.{IpAddr}
use dht_spider.Dht.{
  Dht, Act, Outside, node_found, emits, and_then, each, ask, select_id_for, as_bytes, add_node,
}
use dht_spider.Dht.Response.{
  info_hash_of, target_of, is_kind, is_unknown, address_text, go_on_get_peers, go_on_find_node,
  added, on_found, found_nodes, peer_at, keep_peer, on_values, found_peers,
}
use dht_spider.Dht.Acts.{Says, behind-Says, and_then-Says}

module _ (target own : Bytes) where
  abbrev pub HasId : Dht → Type 0
  HasId d = select_id_for d (some target) ≡ own

  add_node-HasId :
      (now : ℕ) (trans : Option Transaction) (n : NodeInfo) (d : Dht) (o : Outside)
      (r : Option (Bool × RoutingTable))
      → HasId d
      → Says
          (λ d' out. HasId d')
          (added o now trans n
            (Option.map (λ (s : Bool × RoutingTable). record d { routing = s.1 }) r))
  unfolding select_id_for ask
  add_node-HasId now trans n d o none h = tt
  add_node-HasId now trans n d o (some (grown, routing)) h =
      behind-Says HasId
        (emits d'.callbacks.on_node (node_found (o.hex_encode n.id) (ip_string n.ip) n.port))
        (and_then (some (go_on_get_peers o now n (info_hash_of trans) d')) λ d2.
          some (go_on_find_node o now n (is_kind (codes "find_node") trans) (target_of trans) d2))
        (first_query (info_hash_of trans))
    where
      d' : Dht
      d' = record d { routing = routing }

      second_query :
          (b : Bool) (t : Option Bytes) (d2 : Dht)
          → HasId d2
          → HasId (go_on_find_node o now n b t d2).0
      second_query b none d2 k = k
      second_query b (some t) d2 k =
          elim (Bool-cases (
            b
            && is_unknown (get_by_index d2.trans (codes "find_node") (address_text n.ip n.port)))) [
              | inl new ↦ rw new k
              | inr old ↦ rw old k
            ]

      asked : (ih : Option Bytes) → HasId (go_on_get_peers o now n ih d').0
      asked none = h
      asked (some ih) =
          elim (Bool-cases
            (is_unknown (get_by_index d'.trans (codes "get_peers") (address_text n.ip n.port)))) [
              | inl new ↦ rw new h
              | inr old ↦ rw old h
            ]

      first_query :
          (ih : Option Bytes)
          → Says
              (λ d2 out. HasId d2)
              (and_then (some (go_on_get_peers o now n ih d')) λ d2.
                some (
                  go_on_find_node o now n (is_kind (codes "find_node") trans) (target_of trans) d2))
      first_query ih =
          second_query (is_kind (codes "find_node") trans) (target_of trans)
            (go_on_get_peers o now n ih d').0 (asked ih)

  on_found-HasId :
      (o : Outside) (now : ℕ) (trans : Option Transaction) (d : Dht) (n : NodeInfo)
      → HasId d
      → Says (λ d' out. HasId d') (on_found o now trans d n)
  unfolding on_found add_node
  on_found-HasId o now trans d n h =
      elim (Bool-cases (BlackList.contains d.blacklist now (ip_string n.ip) (some n.port))) [
        | inl banned ↦ rw banned h
        | inr free ↦ elim (Bool-cases (leb d.cfg.max_nodes (len d.routing))) [
          | inl full ↦ rw (free, full) h
          | inr room ↦
              rw (free, room)
                (add_node-HasId now trans n d o
                  (Table.insert d.routing now (record {
                    id = n.id;
                    addr = record { ip = n.ip; port = n.port };
                    last_active = now;
                  }))
                  h)
        ]
      ]

  each-HasId {ℓ} :
      {A : Type ℓ} (f : Dht → A → Act) (xs : List A)
      → ((d : Dht) (x : A) → HasId d → Says (λ d' out. HasId d') (f d x))
      → (d : Dht) → HasId d
      → Says (λ d' out. HasId d') (each f xs d)
  unfolding each
  each-HasId f [] k d h = h
  each-HasId f (x ∷ xs) k d h =
      and_then-Says HasId (λ d' out. HasId d') (f d x) (each f xs) (k d x h)
        λ d1 out h1. each-HasId f xs k d1 h1

  pub found_nodes-HasId :
      (o : Outside) (now : ℕ) (trans : Option Transaction) (nodes : Option Bytes) (d : Dht)
      → HasId d
      → Says (λ d' out. HasId d') (found_nodes o now trans nodes d)
  found_nodes-HasId o now trans none d h = h
  found_nodes-HasId o now trans (some nodes) d h =
      each-HasId (on_found o now trans) (decode_compact_nodes nodes)
        (λ d1 n h1. on_found-HasId o now trans d1 n h1) d h

  keep_peer-HasId :
      (o : Outside) (ih : Bytes) (p : Option (IpAddr × ℕ)) (d : Dht)
      → HasId d
      → HasId (keep_peer o ih p d).0
  unfolding select_id_for
  keep_peer-HasId o ih none d h = h
  keep_peer-HasId o ih (some (ip, port)) d h = h

  on_values-HasId :
      (o : Outside) (ih : Bytes) (vs : Items) (d : Dht) → HasId d → HasId (on_values o ih vs d).0
  unfolding on_values
  on_values-HasId o ih nil d h = h
  on_values-HasId o ih (item v vs) d h =
      on_values-HasId o ih vs (keep_peer o ih (peer_at (as_bytes (some v))) d).0
        (keep_peer-HasId o ih (peer_at (as_bytes (some v))) d h)

  pub found_peers-HasId :
      (o : Outside) (t : Bytes) (ih : Option Bytes) (v : Option BVal) (d : Dht)
      → HasId d
      → HasId (found_peers o t ih v d).0
  unfolding select_id_for
  found_peers-HasId o t none v d h = h
  found_peers-HasId o t (some ih) none d h = h
  found_peers-HasId o t (some ih) (some (list vs)) d h = on_values-HasId o ih vs d h
  found_peers-HasId o t (some ih) (some (bytes b)) d h = h
  found_peers-HasId o t (some ih) (some (int n)) d h = h
  found_peers-HasId o t (some ih) (some (dict m)) d h = h
