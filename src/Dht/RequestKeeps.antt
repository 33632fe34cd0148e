-- ===== src/Dht/RequestKeeps.antt =====
-- A request leaves the node's tables well formed.
use dht_spider.Prelude.{
  ◌≡◌, ==_iff, ℕ, true, false, not, Option, none, some, arith, Bytes, codes, length, ltb, ltb→lt,
  ◌==◌, Bool-cases, inl, inr,
}
use dht_spider.Std.Decimal.{ℤ}
use dht_spider.Std.Net.{SocketAddr}
use dht_spider.Std.Order.{bytes_eq}
use dht_spider.Std.Utf8.{from_utf8_lossy}
use dht_spider.Types.{Mode, standard, crawl}
use dht_spider.Bencode.Value.{Entries, get}
use dht_spider.Token.{token, check}
use dht_spider.Routing.Table.{len}
use dht_spider.Config.{Config}
use dht_spider.Dht.{Dht, Outside, as_bytes, as_int, as_dict, twenty, add_node}
use dht_spider.Dht.Request.{
  Handled, implied, port_of, find_node_in, get_peers_of, announced, announce, announce_of, on_query,
  note_sender, query_of, method_of, request_of, handle_request,
}
use dht_spider.Dht.Acts.{Keeps}
use dht_spider.Dht.Invariant.{IsDht, IsAdded, with_tokens, peer-IsDht, add_node-IsAdded}

abbrev pub IsTwenty : Option Bytes → Type 0
IsTwenty none = Unit
IsTwenty (some b) = length b ≡ 20

pub twenty-IsTwenty : (o : Option Bytes) → IsTwenty (twenty o)
twenty-IsTwenty none = tt
twenty-IsTwenty (some b) = elim (Bool-cases (length b == 20)) [
  | inl e ↦ rw e ((==_iff _ _).0 e)
  | inr e ↦ rw e tt
]

module _ (o : Outside) (cfg : Config) where
  abbrev Handles : Handled → Type 0
  Handles (d, out, goes_on) = IsDht cfg d

  find_node_in-Handles :
      (mode : Mode) (d : Dht) (t : Bytes) (target : Option Bytes) (addr : SocketAddr)
      → IsDht cfg d
      → Handles (find_node_in o mode d t target addr)
  find_node_in-Handles crawl d t target addr h = h
  find_node_in-Handles standard d t none addr h = h
  find_node_in-Handles standard d t (some target) addr h = h

  get_peers_of-Handles :
      (d : Dht) (now : ℕ) (random t : Bytes) (ih : Option Bytes) (addr : SocketAddr)
      → IsDht cfg d
      → Handles (get_peers_of o d now random t ih addr)
  get_peers_of-Handles d now random t none addr h = h
  get_peers_of-Handles d now random t (some ih) addr h =
      with_tokens cfg d h (token d.tokens now random addr.ip).1

  announced-IsDht :
      (mode : Mode) (d : Dht) (t remote_id ih given : Bytes) (port : ℕ) (addr : SocketAddr)
      → IsDht cfg d
      → IsDht cfg (announced o mode d t remote_id ih given port addr).0
  announced-IsDht crawl d t remote_id ih given port addr h = h
  announced-IsDht standard d t remote_id ih given port addr h = peer-IsDht cfg d h ih _

  announce-Handles :
      (d : Dht) (t remote_id ih given : Bytes) (port : ℕ) (addr : SocketAddr)
      → IsDht cfg d
      → Handles (announce o d t remote_id ih given port addr)
  unfolding announce
  announce-Handles d t remote_id ih given port addr h =
      let (valid, tokens) = check d.tokens addr.ip (from_utf8_lossy given) in
      let d' : Dht = record d { tokens = tokens } in
      let h' = with_tokens cfg d h tokens in
      elim (Bool-cases (not valid)) [
        | inl wrong ↦ rw wrong h'
        | inr right ↦ elim (Bool-cases (not (length ih == 20))) [
          | inl odd ↦ rw (right, odd) h'
          | inr twenty_bytes ↦
              rw (right, twenty_bytes)
                (announced-IsDht d.cfg.mode d' t remote_id ih given port addr h')
        ]
      ]

  announce_of-Handles :
      (d : Dht) (t remote_id : Bytes) (ih given : Option Bytes) (n implied_port : Option ℤ)
      (addr : SocketAddr)
      → IsDht cfg d
      → Handles (announce_of o d t remote_id ih given n implied_port addr)
  announce_of-Handles d t remote_id (some ih) (some given) (some n) implied_port addr h =
      announce-Handles d t remote_id ih given (implied implied_port (port_of n) addr.port) addr h
  announce_of-Handles d t remote_id none given n implied_port addr h = h
  announce_of-Handles d t remote_id (some ih) none n implied_port addr h = h
  announce_of-Handles d t remote_id (some ih) (some given) none implied_port addr h = h

  on_query-Handles :
      (d : Dht) (now : ℕ) (random t q : Bytes) (a : Entries) (remote_id : Bytes) (addr : SocketAddr)
      → IsDht cfg d
      → Handles (on_query o d now random t q a remote_id addr)
  unfolding on_query
  on_query-Handles d now random t q a remote_id addr h =
      elim (Bool-cases (bytes_eq q (codes "ping"))) [
        | inl e ↦ rw e h
        | inr e1 ↦ elim (Bool-cases (bytes_eq q (codes "find_node"))) [
          | inl e ↦
              rw (e1, e)
                (find_node_in-Handles d.cfg.mode d t (twenty (as_bytes (get (codes "target") a)))
                  addr h)
          | inr e2 ↦ elim (Bool-cases (bytes_eq q (codes "get_peers"))) [
            | inl e ↦
                rw (e1, e2, e)
                  (get_peers_of-Handles d now random t
                    (twenty (as_bytes (get (codes "info_hash") a))) addr h)
            | inr e3 ↦ elim (Bool-cases (bytes_eq q (codes "announce_peer"))) [
              | inl e ↦
                  rw (e1, e2, e3, e)
                    (announce_of-Handles d t remote_id (as_bytes (get (codes "info_hash") a))
                      (as_bytes (get (codes "token") a)) (as_int (get (codes "port") a))
                      (as_int (get (codes "implied_port") a)) addr h)
              | inr e4 ↦ rw (e1, e2, e3, e4) h
            ]
          ]
        ]
      ]

  note_sender-Keeps :
      (now : ℕ) (remote_id : Bytes) (addr : SocketAddr) (r : Handled)
      → length remote_id ≡ 20
      → Handles r
      → Keeps (IsDht cfg) (note_sender now remote_id addr r)
  unfolding note_sender
  note_sender-Keeps now remote_id addr (d, out, false) size h = h
  note_sender-Keeps now remote_id addr (d, out, true) size h =
      elim (Bool-cases (ltb (len d.routing) d.cfg.max_nodes)) [
        | inl room ↦
            let e = h.same_config in
            rw room (
              added (add_node now remote_id addr d) (
                add_node-IsAdded cfg d h now remote_id addr size
                  (ground (arith, ltb→lt (len d.routing) d.cfg.max_nodes room))))
        | inr full ↦ rw full h
      ]
    where
      added :
          (r : Option Dht)
          → IsAdded cfg d h r
          → Keeps (IsDht cfg) (elim r [ none ↦ none | some d' ↦ some (d', out) ])
      added none k = absurd k
      added (some d') k = k

  query_of-Keeps :
      (d : Dht) (now : ℕ) (random t q : Bytes) (a : Entries) (id : Option Bytes) (addr : SocketAddr)
      → IsTwenty id
      → IsDht cfg d
      → Keeps (IsDht cfg) (query_of o d now random t q a id addr)
  query_of-Keeps d now random t q a none addr len h = h
  query_of-Keeps d now random t q a (some remote_id) addr len h =
      note_sender-Keeps now remote_id addr (on_query o d now random t q a remote_id addr) len
        (on_query-Handles d now random t q a remote_id addr h)

  request_of-Keeps :
      (d : Dht) (now : ℕ) (random t : Bytes) (q : Option Bytes) (a : Option Entries)
      (addr : SocketAddr)
      → IsDht cfg d
      → Keeps (IsDht cfg) (request_of o d now random t q a addr)
  request_of-Keeps d now random t (some q) (some a) addr h =
      query_of-Keeps d now random t q a (twenty (as_bytes (get (codes "id") a))) addr
        (twenty-IsTwenty (as_bytes (get (codes "id") a))) h
  request_of-Keeps d now random t none a addr h = h
  request_of-Keeps d now random t (some q) none addr h = h

  pub handle_request-Keeps :
      (now : ℕ) (random t : Bytes) (msg : Entries) (addr : SocketAddr) (d : Dht)
      → IsDht cfg d
      → Keeps (IsDht cfg) (handle_request o now random t msg addr d)
  unfolding handle_request
  handle_request-Keeps now random t msg addr d h =
      request_of-Keeps d now random t (method_of (as_bytes (get (codes "q") msg)))
        (as_dict (get (codes "a") msg)) addr h
