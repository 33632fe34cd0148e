-- ===== src/Dht/Request.antt =====
-- `handle_request` of src/dht.rs.
use dht_spider.Prelude.{
  ℕ, ◌%◌, ◌^◌, Bool, true, false, not, Option, none, some, List, [], ◌∷◌, ◌++◌, Bytes, codes,
  length, ltb, leb, ◌==◌, if◌then◌else◌,
}
use dht_spider.Std.Decimal.{ℤ, pos, negsuc, as_usize}
use dht_spider.Std.Net.{SocketAddr}
use dht_spider.Std.Display.{ip_string}
use dht_spider.Std.Order.{bytes_eq}
use dht_spider.Std.Utf8.{from_utf8, from_utf8_lossy}
use dht_spider.Types.{Peer, Mode, standard, crawl}
use dht_spider.Util.{encode_compact_ip_port}
use dht_spider.Bencode.Value.{BVal, bytes, list, Items, nil, item, Entries, get, dict_of}
use dht_spider.Krpc.{make_response, make_error}
use dht_spider.Peers as Peers
use dht_spider.Token.{token, check}
use dht_spider.Routing.Queries.{get_neighbors_compact}
use dht_spider.Routing.Table.{len}
use dht_spider.Dht.{
  Dht, Output, sends, peers_asked, peer_announced, Outside, Act, quiet, select_id_for, as_bytes,
  as_int, as_dict, twenty, emits, add_node,
}

-- What a kind of query leads to: the state, what goes out, and whether the sender goes into the
-- routing table then.
abbrev pub Handled : Type 0
Handled = Dht × List Output × Bool

unfoldable pub values_of : List Peer → Items
unfolding encode_compact_ip_port
values_of [] = nil
values_of (p ∷ ps) = elim (encode_compact_ip_port p.ip p.port) [
  | none ↦ values_of ps
  | some comp ↦ item (bytes comp) (values_of ps)
]

abbrev pub is_none : List Peer → Bool
is_none [] = true
is_none (p ∷ ps) = false

-- `n as i32`, and 0 for a negative one, `as u16`
unfoldable pub port_of : ℤ → ℕ
port_of n = let low = as_usize n % 2 ^ 32 in if leb (2 ^ 31) low then 0 else low % 2 ^ 16

-- The port of the packet's sender takes the place of the given one.
unfoldable pub implied : Option ℤ → ℕ → ℕ → ℕ
implied none port sender = port
implied (some (pos n)) port sender = if n == 0 then port else sender
implied (some (negsuc n)) port sender = sender

-- The end of `handle_request`, for a query that did not return before.
unfoldable pub note_sender : ℕ → Bytes → SocketAddr → Handled → Act
unfolding add_node
note_sender now remote_id addr (d, out, goes_on) =
    if goes_on
    then (if ltb (len d.routing) d.cfg.max_nodes
        then elim (add_node now remote_id addr d) [ none ↦ none | some d' ↦ some (d', out) ]
        else some (d, out))
    else some (d, out)

abbrev pub method_of : Option Bytes → Option Bytes
method_of none = none
method_of (some qb) = from_utf8 qb

module _ (o : Outside) where
  unfoldable pub respond : Bytes → SocketAddr → List (Bytes × BVal) → Output
  unfolding make_response
  respond t addr pairs = sends addr (make_response o.itoa t (dict_of pairs))

  unfoldable pub refuse : Bytes → SocketAddr → Bytes → Output
  unfolding make_error
  refuse t addr message = sends addr (make_error o.itoa t (pos 203) message)

  unfoldable pub on_ping : Dht → Bytes → Bytes → SocketAddr → Handled
  unfolding respond
  on_ping d t remote_id addr =
      (d, respond t addr ((codes "id", bytes (select_id_for d (some remote_id))) ∷ []) ∷ [], false)

  abbrev pub find_node_in : Mode → Dht → Bytes → Option Bytes → SocketAddr → Handled
  find_node_in crawl d t target addr = (d, [], true)
  find_node_in standard d t none addr = (d, refuse t addr (codes "invalid target") ∷ [], false)
  find_node_in standard d t (some target) addr = (
    d,
    respond t addr (
          (codes "id", bytes (select_id_for d (some target)))
          ∷ (codes "nodes", bytes (get_neighbors_compact d.routing target d.cfg.k))
          ∷ [])
        ∷ [],
    true,
  )

  unfoldable pub on_find_node : Dht → Bytes → Entries → SocketAddr → Handled
  unfolding respond refuse get_neighbors_compact
  on_find_node d t a addr =
      find_node_in d.cfg.mode d t (twenty (as_bytes (get (codes "target") a))) addr

  -- The values of the answer to `get_peers`.
  abbrev pub peers_answer : Mode → Dht → Bytes → Bytes → List (Bytes × BVal)
  peers_answer crawl d ih given =
      (codes "id", bytes (select_id_for d (some ih)))
      ∷ (codes "token", bytes given)
      ∷ (codes "nodes", bytes [])
      ∷ []
  peers_answer standard d ih given =
      let peers = Peers.get d.peers ih d.cfg.k in
      let id : Bytes × BVal = (codes "id", bytes (select_id_for d (some ih))) in
      if is_none peers
      then id
        ∷ (codes "token", bytes given)
        ∷ (codes "nodes", bytes (get_neighbors_compact d.routing ih d.cfg.k))
        ∷ []
      else id ∷ (codes "values", list (values_of peers)) ∷ (codes "token", bytes given) ∷ []

  abbrev pub get_peers_of : Dht → ℕ → Bytes → Bytes → Option Bytes → SocketAddr → Handled
  get_peers_of d now random t none addr = (d, refuse t addr (codes "invalid info_hash") ∷ [], false)
  get_peers_of d now random t (some ih) addr =
      let (given, tokens) = token d.tokens now random addr.ip in
      (
        record d { tokens = tokens },
        respond t addr (peers_answer d.cfg.mode d ih given)
            ∷ emits d.callbacks.on_get_peers
                (peers_asked (o.hex_encode ih) (ip_string addr.ip) addr.port),
        true,
      )

  unfoldable pub on_get_peers : Dht → ℕ → Bytes → Bytes → Entries → SocketAddr → Handled
  unfolding respond refuse get_neighbors_compact values_of token Peers.get
  on_get_peers d now random t a addr =
      get_peers_of d now random t (twenty (as_bytes (get (codes "info_hash") a))) addr

  abbrev pub announced :
      Mode → Dht → Bytes → Bytes → Bytes → Bytes → ℕ → SocketAddr → Dht × List Output
  announced crawl d t remote_id ih given port addr = (d, [])
  announced standard d t remote_id ih given port addr = (
    record d {
      peers =
          Peers.insert d.peers ih
            (record { ip = addr.ip; port = port; token = some (from_utf8_lossy given) });
    },
    respond t addr ((codes "id", bytes (select_id_for d (some remote_id))) ∷ []) ∷ [],
  )

  -- An announcement with all its keys: the token is used up, right or wrong.
  unfoldable pub announce : Dht → Bytes → Bytes → Bytes → Bytes → ℕ → SocketAddr → Handled
  unfolding respond check Peers.insert from_utf8_lossy
  announce d t remote_id ih given port addr =
      let (valid, tokens) = check d.tokens addr.ip (from_utf8_lossy given) in
      let d' = record d { tokens = tokens } in
      if not valid
      then (d', [], false)
      else if not (length ih == 20)
      then (d', [], false)
      else let (d2, out) = announced d.cfg.mode d' t remote_id ih given port addr in
        (
          d2,
          out
              ++ emits d.callbacks.on_announce_peer
                  (peer_announced (o.hex_encode ih) (ip_string addr.ip) port),
          true,
        )

  abbrev pub announce_of :
      Dht → Bytes → Bytes → Option Bytes → Option Bytes → Option ℤ → Option ℤ → SocketAddr → Handled
  announce_of d t remote_id (some ih) (some given) (some n) implied_port addr =
      announce d t remote_id ih given (implied implied_port (port_of n) addr.port) addr
  announce_of d t remote_id none given n implied_port addr = (d, [], false)
  announce_of d t remote_id (some ih) none n implied_port addr = (d, [], false)
  announce_of d t remote_id (some ih) (some given) none implied_port addr = (d, [], false)

  unfoldable pub on_announce_peer : Dht → Bytes → Entries → Bytes → SocketAddr → Handled
  unfolding announce implied port_of
  on_announce_peer d t a remote_id addr =
      announce_of d t remote_id (as_bytes (get (codes "info_hash") a))
        (as_bytes (get (codes "token") a)) (as_int (get (codes "port") a))
        (as_int (get (codes "implied_port") a)) addr

  unfoldable pub on_query : Dht → ℕ → Bytes → Bytes → Bytes → Entries → Bytes → SocketAddr → Handled
  unfolding on_ping on_find_node on_get_peers on_announce_peer bytes_eq
  on_query d now random t q a remote_id addr =
      if bytes_eq q (codes "ping")
      then on_ping d t remote_id addr
      else if bytes_eq q (codes "find_node")
      then on_find_node d t a addr
      else if bytes_eq q (codes "get_peers")
      then on_get_peers d now random t a addr
      else if bytes_eq q (codes "announce_peer")
      then on_announce_peer d t a remote_id addr
      else (d, [], true)

  abbrev pub query_of : Dht → ℕ → Bytes → Bytes → Bytes → Entries → Option Bytes → SocketAddr → Act
  query_of d now random t q a none addr = some (d, refuse t addr (codes "invalid id") ∷ [])
  query_of d now random t q a (some remote_id) addr =
      note_sender now remote_id addr (on_query d now random t q a remote_id addr)

  abbrev pub request_of : Dht → ℕ → Bytes → Bytes → Option Bytes → Option Entries → SocketAddr → Act
  request_of d now random t (some q) (some a) addr =
      query_of d now random t q a (twenty (as_bytes (get (codes "id") a))) addr
  request_of d now random t none a addr = quiet d
  request_of d now random t (some q) none addr = quiet d

  unfoldable pub handle_request : ℕ → Bytes → Bytes → Entries → SocketAddr → Dht → Act
  unfolding note_sender on_query refuse from_utf8 get
  handle_request now random t msg addr d =
      request_of d now random t (method_of (as_bytes (get (codes "q") msg)))
        (as_dict (get (codes "a") msg)) addr
