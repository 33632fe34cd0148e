-- ===== src/Dht/Response.antt =====
-- `handle_response` and `handle_packet` of src/dht.rs.
use dht_spider.Prelude.{
  ℕ, Bool, true, false, not, ◌&&◌, Option, none, some, List, [], ◌∷◌, ◌++◌, Bytes, codes, leb,
  if◌then◌else◌, length, ◌==◌,
}
use dht_spider.Std.Decimal.{decimal, pos}
use dht_spider.Std.Net.{IpAddr, SocketAddr, addr_eq}
use dht_spider.Std.Display.{ip_string}
use dht_spider.Std.Order.{bytes_eq}
use dht_spider.Types as Types
use dht_spider.Types.{Peer}
use dht_spider.Util.{NodeInfo, decode_compact_nodes, decode_compact_ip_port}
use dht_spider.Bencode.Value.{BVal, bytes, int, list, dict, Items, nil, item, Entries, get, dict_of}
use dht_spider.Krpc.{decode_value, parse_message}
use dht_spider.BlackList as BlackList
use dht_spider.Peers as Peers
use dht_spider.Transaction.{Transaction, get_by_trans_id, get_by_index, finish_by_trans_id}
use dht_spider.Routing.Table.{len}
use dht_spider.Dht.{
  Dht, Output, peers_answered, node_found, Outside, Act, quiet, behind, and_then, each,
  select_id_for, ask, ask_get_peers, ask_find_node, as_bytes, as_dict, twenty, emits, add_node,
}
use dht_spider.Dht.Request.{handle_request}

-- What the transaction that a response answers says; nothing, where there is none.
abbrev pub info_hash_of : Option Transaction → Option Bytes
info_hash_of none = none
info_hash_of (some t) = t.info_hash

abbrev pub target_of : Option Transaction → Option Bytes
target_of none = none
target_of (some t) = t.target

abbrev pub is_kind : Bytes → Option Transaction → Bool
is_kind qtype none = false
is_kind qtype (some t) = bytes_eq t.qtype qtype

abbrev pub is_from : SocketAddr → Option Transaction → Bool
is_from addr none = true
is_from addr (some t) = addr_eq t.addr addr

abbrev pub is_unknown : Option Transaction → Bool
is_unknown none = true
is_unknown (some t) = false

-- `format!("{}:{}", ip, port)`
abbrev pub address_text : IpAddr → ℕ → Bytes
address_text ip port = ip_string ip ++ b':' ∷ decimal port

abbrev pub peer_at : Option Bytes → Option (IpAddr × ℕ)
peer_at none = none
peer_at (some b) = if length b == 6 then decode_compact_ip_port b else none

abbrev pub finish : Bytes → Dht → Dht
finish t d = record d { trans = (finish_by_trans_id d.trans t).1 }

-- A `get_peers` that was sent for the sake of an announcement.
abbrev pub announce_port_of : Transaction → Option Bytes → Option ℕ → Option (Bytes × ℕ)
announce_port_of t (some ih) (some port) =
    if bytes_eq t.qtype (codes "get_peers") then some (ih, port) else none
announce_port_of t none port = none
announce_port_of t (some ih) none = none

abbrev pub is_missing : Option Bytes → Bool
is_missing none = true
is_missing (some b) = false

abbrev pub finish_find_node : Bytes → Option Transaction → Dht → Dht × List Output
finish_find_node t trans d = (
  if is_kind (codes "find_node") trans && is_missing (info_hash_of trans) then finish t d else d,
  [],
)

abbrev pub announce_args : Bytes → Bytes → ℕ → Bool → Bytes → BVal
announce_args id ih port implied given = dict_of (
    ((codes "id", bytes id)
      ∷ (codes "info_hash", bytes ih)
      ∷ (codes "port", int (pos port))
      ∷ (codes "token", bytes given)
      ∷ [])
    ++ (if implied then (codes "implied_port", int (pos 1)) ∷ [] else []))

-- The parts of a response after its nodes, last first.
abbrev pub to_finish : Bytes → Option Transaction → Dht → Act
to_finish t trans d = some (finish_find_node t trans d)

module _ (o : Outside) where
  -- A query to a node that was just heard of, unless one of its kind is under way there.
  abbrev pub go_on_get_peers : ℕ → NodeInfo → Option Bytes → Dht → Dht × List Output
  go_on_get_peers now n none d = (d, [])
  go_on_get_peers now n (some ih) d =
      if is_unknown (get_by_index d.trans (codes "get_peers") (address_text n.ip n.port))
      then ask_get_peers o now (record { ip = n.ip; port = n.port }) ih none d
      else (d, [])

  abbrev pub go_on_find_node : ℕ → NodeInfo → Bool → Option Bytes → Dht → Dht × List Output
  go_on_find_node now n is_find_node none d = (d, [])
  go_on_find_node now n is_find_node (some target) d =
      if is_find_node
        && is_unknown (get_by_index d.trans (codes "find_node") (address_text n.ip n.port))
      then ask_find_node o now (record { ip = n.ip; port = n.port }) target d
      else (d, [])

  -- What is done once the node is in the table.
  abbrev pub added : ℕ → Option Transaction → NodeInfo → Option Dht → Act
  added now trans n none = none
  added now trans n (some d) =
      behind (emits d.callbacks.on_node (node_found (o.hex_encode n.id) (ip_string n.ip) n.port)) (
        and_then (some (go_on_get_peers now n (info_hash_of trans) d)) λ d2.
          some (go_on_find_node now n (is_kind (codes "find_node") trans) (target_of trans) d2))

  -- The loop over the nodes of a response.
  unfoldable pub on_found : ℕ → Option Transaction → Dht → NodeInfo → Act
  unfolding add_node ask get_by_index BlackList.contains decimal ip_string bytes_eq
  on_found now trans d n =
      if BlackList.contains d.blacklist now (ip_string n.ip) (some n.port)
      then quiet d
      else if leb d.cfg.max_nodes (len d.routing)
      then quiet d
      else added now trans n (add_node now n.id (record { ip = n.ip; port = n.port }) d)

  abbrev pub found_nodes : ℕ → Option Transaction → Option Bytes → Dht → Act
  found_nodes now trans none d = quiet d
  found_nodes now trans (some nodes) d = each (on_found now trans) (decode_compact_nodes nodes) d

  abbrev pub keep_peer : Bytes → Option (IpAddr × ℕ) → Dht → Dht × List Output
  keep_peer ih none d = (d, [])
  keep_peer ih (some (ip, port)) d =
      let peer : Peer = record { ip = ip; port = port; token = none } in
      (
        record d { peers = Peers.insert d.peers ih peer },
        emits d.callbacks.on_get_peers_response (peers_answered (o.hex_encode ih) peer),
      )

  -- The loop over the values of a response.
  unfoldable pub on_values : Bytes → Items → Dht → Dht × List Output
  unfolding Peers.insert decode_compact_ip_port
  on_values ih nil d = (d, [])
  on_values ih (item v vs) d =
      let (d', out) = keep_peer ih (peer_at (as_bytes (some v))) d in
      let (d2, more) = on_values ih vs d' in (d2, out ++ more)

  abbrev pub found_peers : Bytes → Option Bytes → Option BVal → Dht → Dht × List Output
  found_peers t (some ih) (some (list vs)) d =
      let (d', out) = on_values ih vs d in (finish t d', out)
  found_peers t (some ih) (some (bytes b)) d = (d, [])
  found_peers t (some ih) (some (int n)) d = (d, [])
  found_peers t (some ih) (some (dict m)) d = (d, [])
  found_peers t (some ih) none d = (d, [])
  found_peers t none v d = (d, [])

  -- `announce_peer`, with the token that came
  unfoldable pub ask_announce :
      ℕ → SocketAddr → Bytes → ℕ → Bool → Bytes → Bytes → Dht → Dht × List Output
  unfolding ask
  ask_announce now addr ih port implied remote_id given d =
      ask o now addr (codes "announce_peer") (some ih) none none
        (announce_args (select_id_for d (some remote_id)) ih port implied given) d

  abbrev pub with_token :
      ℕ → Bytes → Transaction → Bytes → ℕ → Bytes → Option Bytes → Dht → Dht × List Output
  with_token now t trans ih port remote_id none d = (finish t d, [])
  with_token now t trans ih port remote_id (some given) d =
      let (d', out) =
        ask_announce now trans.addr ih port trans.announce_implied_port remote_id given d in
      (finish t d', out)

  abbrev pub planned :
      ℕ → Bytes → Transaction → Option (Bytes × ℕ) → Bytes → Option Bytes → Dht → Dht × List Output
  planned now t trans none remote_id given d = (d, [])
  planned now t trans (some (ih, port)) remote_id given d =
      with_token now t trans ih port remote_id given d

  abbrev pub announce_after :
      ℕ → Bytes → Option Transaction → Bytes → Option Bytes → Dht → Dht × List Output
  announce_after now t none remote_id given d = (d, [])
  announce_after now t (some trans) remote_id given d =
      planned now t trans (announce_port_of trans trans.info_hash trans.announce_port) remote_id
        given d

  abbrev pub to_announce : ℕ → Bytes → Entries → Bytes → Option Transaction → Dht → Act
  to_announce now t r remote_id trans d =
      and_then (some (announce_after now t trans remote_id (as_bytes (get (codes "token") r)) d))
        (to_finish t trans)

  abbrev pub to_peers : ℕ → Bytes → Entries → Bytes → Option Transaction → Dht → Act
  to_peers now t r remote_id trans d =
      and_then (some (found_peers t (info_hash_of trans) (get (codes "values") r) d))
        (to_announce now t r remote_id trans)

  -- The response itself, with the transaction that it answers.
  unfoldable pub on_response :
      ℕ → Bytes → Entries → Bytes → SocketAddr → Option Transaction → Dht → Act
  unfolding on_found on_values ask_announce finish_by_trans_id each decode_compact_nodes bytes_eq
  on_response now t r remote_id addr trans d =
      if not (is_from addr trans)
      then quiet d
      else and_then (found_nodes now trans (as_bytes (get (codes "nodes") r)) d)
          (to_peers now t r remote_id trans)

  abbrev pub response_from : ℕ → Bytes → Entries → Option Bytes → SocketAddr → Dht → Act
  response_from now t r none addr d = quiet d
  response_from now t r (some remote_id) addr d =
      on_response now t r remote_id addr (get_by_trans_id d.trans t) d

  abbrev pub response_of : ℕ → Bytes → Option Entries → SocketAddr → Dht → Act
  response_of now t none addr d = quiet d
  response_of now t (some r) addr d =
      response_from now t r (twenty (as_bytes (get (codes "id") r))) addr d

  unfoldable pub handle_response : ℕ → Bytes → Entries → SocketAddr → Dht → Act
  unfolding on_response get_by_trans_id get
  handle_response now t msg addr d = response_of now t (as_dict (get (codes "r") msg)) addr d

  unfoldable pub dispatch : ℕ → Bytes → Bytes → Bytes → Entries → SocketAddr → Dht → Act
  unfolding handle_request handle_response finish_by_trans_id bytes_eq
  dispatch now random t y msg addr d =
      if bytes_eq y (codes "q")
      then handle_request o now random t msg addr d
      else if bytes_eq y (codes "r")
      then handle_response now t msg addr d
      else if bytes_eq y (codes "e")
      then quiet (finish t d)
      else quiet d

  abbrev pub message_of :
      ℕ → Bytes → SocketAddr → Types.Result (Bytes × Bytes × Entries) → Dht → Act
  message_of now random addr (Types.ok (t, y, msg)) d = dispatch now random t y msg addr d
  message_of now random addr (Types.err e) d = quiet d
  message_of now random addr Types.out_of_fuel d = quiet d

  -- What does not decode is dropped. The decoder never runs out of fuel.
  unfoldable pub handle_packet : ℕ → Bytes → Bytes → SocketAddr → Dht → Act
  unfolding dispatch decode_value parse_message BlackList.contains ip_string
  handle_packet now random input addr d =
      if BlackList.contains d.blacklist now (ip_string addr.ip) (some addr.port)
      then quiet d
      else message_of now random addr (Types.◌>>=◌ (decode_value input) parse_message) d
