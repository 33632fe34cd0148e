-- ===== src/Dht/ResponseKeeps.antt =====
-- A response and a packet leave the node's tables well formed.
use dht_spider.Prelude.{ℕ, not, ◌&&◌, Option, none, some, Bytes, codes, Bool-cases, inl, inr}
use dht_spider.Std.Net.{SocketAddr}
use dht_spider.Std.Display.{ip_string}
use dht_spider.Std.Order.{bytes_eq}
use dht_spider.Types as Types
use dht_spider.Types.{Peer}
use dht_spider.Bencode.Value.{Entries, get}
use dht_spider.Krpc.{decode_value, parse_message}
use dht_spider.BlackList as BlackList
use dht_spider.Transaction.{Transaction, get_by_trans_id}
use dht_spider.Config.{Config}
use dht_spider.Dht.{Dht, Outside, ask, select_id_for, as_bytes, as_dict, twenty}
use dht_spider.Dht.Response.{
  info_hash_of, is_kind, is_from, announce_args, found_nodes, found_peers, ask_announce, with_token,
  announce_port_of, planned, announce_after, finish_find_node, is_missing, to_finish, to_announce,
  to_peers, on_response, response_from, response_of, handle_response, dispatch, message_of,
  handle_packet,
}
use dht_spider.Dht.Acts.{Keeps, and_then-Keeps}
use dht_spider.Dht.Invariant.{IsDht, ask-IsDht, finish-IsDht}
use dht_spider.Dht.RequestKeeps.{handle_request-Keeps}
use dht_spider.Dht.FoundKeeps.{found_nodes-Keeps, found_peers-IsDht}

module _ (o : Outside) (cfg : Config) where
  with_token-IsDht :
      (now : ℕ) (t : Bytes) (trans : Transaction) (ih : Bytes) (port : ℕ) (id : Bytes)
      (given : Option Bytes) (d : Dht)
      → IsDht cfg d
      → IsDht cfg (with_token o now t trans ih port id given d).0
  unfolding ask_announce
  with_token-IsDht now t trans ih port id none d h = finish-IsDht cfg d h t
  with_token-IsDht now t trans ih port id (some given) d h =
      let args =
        announce_args (select_id_for d (some id)) ih port trans.announce_implied_port given in
      finish-IsDht cfg (ask o now trans.addr (codes "announce_peer") (some ih) none none args d).0
        (ask-IsDht cfg d h o now trans.addr (codes "announce_peer") (some ih) none none args) t

  planned-IsDht :
      (now : ℕ) (t : Bytes) (trans : Transaction) (p : Option (Bytes × ℕ)) (id : Bytes)
      (given : Option Bytes) (d : Dht)
      → IsDht cfg d
      → IsDht cfg (planned o now t trans p id given d).0
  planned-IsDht now t trans none id given d h = h
  planned-IsDht now t trans (some (ih, port)) id given d h =
      with_token-IsDht now t trans ih port id given d h

  announce_after-IsDht :
      (now : ℕ) (t : Bytes) (trans : Option Transaction) (id : Bytes) (given : Option Bytes)
      (d : Dht)
      → IsDht cfg d
      → IsDht cfg (announce_after o now t trans id given d).0
  announce_after-IsDht now t none id given d h = h
  announce_after-IsDht now t (some trans) id given d h =
      planned-IsDht now t trans (announce_port_of trans trans.info_hash trans.announce_port) id
        given d h

  finish_find_node-IsDht :
      (t : Bytes) (trans : Option Transaction) (d : Dht)
      → IsDht cfg d
      → IsDht cfg (finish_find_node t trans d).0
  finish_find_node-IsDht t trans d h =
      elim (Bool-cases (is_kind (codes "find_node") trans && is_missing (info_hash_of trans))) [
        | inl done ↦ rw done (finish-IsDht cfg d h t)
        | inr open_still ↦ rw open_still h
      ]

  to_announce-Keeps :
      (now : ℕ) (t : Bytes) (r : Entries) (id : Bytes) (trans : Option Transaction) (d : Dht)
      → IsDht cfg d
      → Keeps (IsDht cfg) (to_announce o now t r id trans d)
  to_announce-Keeps now t r id trans d h =
      let given = as_bytes (get (codes "token") r) in
      and_then-Keeps (IsDht cfg) (some (announce_after o now t trans id given d))
        (to_finish t trans) (announce_after-IsDht now t trans id given d h)
        (finish_find_node-IsDht t trans)

  to_peers-Keeps :
      (now : ℕ) (t : Bytes) (r : Entries) (id : Bytes) (trans : Option Transaction) (d : Dht)
      → IsDht cfg d
      → Keeps (IsDht cfg) (to_peers o now t r id trans d)
  to_peers-Keeps now t r id trans d h =
      let values = get (codes "values") r in
      and_then-Keeps (IsDht cfg) (some (found_peers o t (info_hash_of trans) values d))
        (to_announce o now t r id trans) (found_peers-IsDht o cfg t (info_hash_of trans) values d h)
        (to_announce-Keeps now t r id trans)

  on_response-Keeps :
      (now : ℕ) (t : Bytes) (r : Entries) (id : Bytes) (addr : SocketAddr)
      (trans : Option Transaction) (d : Dht)
      → IsDht cfg d
      → Keeps (IsDht cfg) (on_response o now t r id addr trans d)
  unfolding on_response
  on_response-Keeps now t r id addr trans d h = elim (Bool-cases (not (is_from addr trans))) [
    | inl other ↦ rw other h
    | inr same ↦
        let nodes = as_bytes (get (codes "nodes") r) in
        rw same (
          and_then-Keeps (IsDht cfg) (found_nodes o now trans nodes d) (to_peers o now t r id trans)
            (found_nodes-Keeps o cfg now trans nodes d h) (to_peers-Keeps now t r id trans))
  ]

  response_from-Keeps :
      (now : ℕ) (t : Bytes) (r : Entries) (id : Option Bytes) (addr : SocketAddr) (d : Dht)
      → IsDht cfg d
      → Keeps (IsDht cfg) (response_from o now t r id addr d)
  response_from-Keeps now t r none addr d h = h
  response_from-Keeps now t r (some id) addr d h =
      on_response-Keeps now t r id addr (get_by_trans_id d.trans t) d h

  response_of-Keeps :
      (now : ℕ) (t : Bytes) (r : Option Entries) (addr : SocketAddr) (d : Dht)
      → IsDht cfg d
      → Keeps (IsDht cfg) (response_of o now t r addr d)
  response_of-Keeps now t none addr d h = h
  response_of-Keeps now t (some r) addr d h =
      response_from-Keeps now t r (twenty (as_bytes (get (codes "id") r))) addr d h

  dispatch-Keeps :
      (now : ℕ) (random t y : Bytes) (msg : Entries) (addr : SocketAddr) (d : Dht)
      → IsDht cfg d
      → Keeps (IsDht cfg) (dispatch o now random t y msg addr d)
  unfolding dispatch handle_response
  dispatch-Keeps now random t y msg addr d h = elim (Bool-cases (bytes_eq y (codes "q"))) [
    | inl e ↦ rw e (handle_request-Keeps o cfg now random t msg addr d h)
    | inr e1 ↦ elim (Bool-cases (bytes_eq y (codes "r"))) [
      | inl e ↦ rw (e1, e) (response_of-Keeps now t (as_dict (get (codes "r") msg)) addr d h)
      | inr e2 ↦ elim (Bool-cases (bytes_eq y (codes "e"))) [
        | inl e ↦ rw (e1, e2, e) (finish-IsDht cfg d h t)
        | inr e3 ↦ rw (e1, e2, e3) h
      ]
    ]
  ]

  message_of-Keeps :
      (now : ℕ) (random : Bytes) (addr : SocketAddr) (m : Types.Result (Bytes × Bytes × Entries))
      (d : Dht)
      → IsDht cfg d
      → Keeps (IsDht cfg) (message_of o now random addr m d)
  message_of-Keeps now random addr (Types.ok (t, y, msg)) d h =
      dispatch-Keeps now random t y msg addr d h
  message_of-Keeps now random addr (Types.err e) d h = h
  message_of-Keeps now random addr Types.out_of_fuel d h = h

  pub handle_packet-Keeps :
      (now : ℕ) (random input : Bytes) (addr : SocketAddr) (d : Dht)
      → IsDht cfg d
      → Keeps (IsDht cfg) (handle_packet o now random input addr d)
  unfolding handle_packet
  handle_packet-Keeps now random input addr d h =
      elim (Bool-cases (BlackList.contains d.blacklist now (ip_string addr.ip) (some addr.port))) [
        | inl banned ↦ rw banned h
        | inr free ↦
            rw free (
              message_of-Keeps now random addr (Types.◌>>=◌ (decode_value input) parse_message) d h)
      ]
