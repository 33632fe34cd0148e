-- ===== src/Dht/Replies.antt =====
-- What goes out for a query.
use dht_spider.Prelude.{
  ℕ, ◌≡◌, refl, Bool, true, false, not, Option, none, some, List, [], ◌∷◌, ◌++◌, ◌⊎◌, Bytes, codes,
  length, ltb, ◌==◌, Bool-cases, inl, inr,
}
use dht_spider.Std.Decimal.{ℤ, pos}
use dht_spider.Std.Net.{SocketAddr}
use dht_spider.Std.Display.{ip_string}
use dht_spider.Std.Order.{bytes_eq}
use dht_spider.Std.Utf8.{from_utf8_lossy}
use dht_spider.Types.{Mode, standard, crawl}
use dht_spider.Bencode.Value.{BVal, bytes, Entries, get}
use dht_spider.Krpc.{make_response, make_error}
use dht_spider.Token.{check}
use dht_spider.Routing.Table.{len}
use dht_spider.Dht.{
  Dht, Output, sends, peers_asked, peers_answered, peer_announced, node_found, Outside, Act,
  as_bytes, as_int, as_dict, twenty, emits, select_id_for, add_node,
}
use dht_spider.Dht.Request.{
  Handled, implied, port_of, respond, refuse, find_node_in, on_find_node, get_peers_of,
  on_get_peers, announced, announce, announce_of, on_announce_peer, on_ping, on_query, note_sender,
  query_of, method_of, request_of, handle_request,
}
use dht_spider.Dht.Acts.{Says}

-- The datagrams among the outputs.
unfoldable pub sent : List Output → List (SocketAddr × Bytes)
sent [] = []
sent (sends addr buf ∷ out) = (addr, buf) ∷ sent out
sent (peers_asked ih ip port ∷ out) = sent out
sent (peers_answered ih p ∷ out) = sent out
sent (peer_announced ih ip port ∷ out) = sent out
sent (node_found id ip port ∷ out) = sent out

-- A response or an error with the query's transaction id.
abbrev pub IsReply : Outside → Bytes → Bytes → Type 0
IsReply o t buf =
    ((v : BVal) × (buf ≡ make_response o.itoa t v))
    ⊎ ((m : Bytes) × (buf ≡ make_error o.itoa t (pos 203) m))

abbrev pub Replies : Outside → Bytes → SocketAddr → List Output → Type 0
Replies o t addr out =
    (sent out ≡ []) ⊎ ((buf : Bytes) × (sent out ≡ (addr, buf) ∷ []) × IsReply o t buf)

module _ (o : Outside) (t : Bytes) (addr : SocketAddr) where
  abbrev Answers : Handled → Type 0
  Answers (d, out, goes_on) = Replies o t addr out

  silent-Replies : Replies o t addr []
  unfolding sent
  silent-Replies = inl refl

  sent-emits :
      (set : Bool) (ih ip : Bytes) (port : ℕ) → sent (emits set (peer_announced ih ip port)) ≡ []
  unfolding sent
  sent-emits true ih ip port = refl
  sent-emits false ih ip port = refl

  respond-Replies : (pairs : List (Bytes × BVal)) → Replies o t addr (respond o t addr pairs ∷ [])
  unfolding sent respond
  respond-Replies pairs = inr (_, refl, inl (_, refl))

  refuse-Replies : (m : Bytes) → Replies o t addr (refuse o t addr m ∷ [])
  unfolding sent refuse
  refuse-Replies m = inr (_, refl, inr (m, refl))

  find_node_in-Answers :
      (mode : Mode) (d : Dht) (target : Option Bytes)
      → Answers (find_node_in o mode d t target addr)
  find_node_in-Answers crawl d target = silent-Replies
  find_node_in-Answers standard d none = refuse-Replies (codes "invalid target")
  find_node_in-Answers standard d (some target) = respond-Replies _

  get_peers_of-Answers :
      (d : Dht) (now : ℕ) (random : Bytes) (ih : Option Bytes)
      → Answers (get_peers_of o d now random t ih addr)
  unfolding sent respond
  get_peers_of-Answers d now random none = refuse-Replies (codes "invalid info_hash")
  get_peers_of-Answers d now random (some ih) = elim (Bool-cases d.callbacks.on_get_peers) [
    | inl set ↦ rw set (inr (_, refl, inl (_, refl)))
    | inr unset ↦ rw unset (inr (_, refl, inl (_, refl)))
  ]

  announced-Replies :
      (mode : Mode) (d : Dht) (remote_id ih given : Bytes) (port : ℕ) (set : Bool) (ip : Bytes)
      → Replies o t addr (
          (announced o mode d t remote_id ih given port addr).1
          ++ emits set (peer_announced (o.hex_encode ih) ip port))
  unfolding sent respond
  announced-Replies crawl d remote_id ih given port set ip =
      inl (sent-emits set (o.hex_encode ih) ip port)
  announced-Replies standard d remote_id ih given port true ip = inr (_, refl, inl (_, refl))
  announced-Replies standard d remote_id ih given port false ip = inr (_, refl, inl (_, refl))

  announce-Answers :
      (d : Dht) (remote_id ih given : Bytes) (port : ℕ)
      → Answers (announce o d t remote_id ih given port addr)
  unfolding announce
  announce-Answers d remote_id ih given port =
      let (valid, tokens) = check d.tokens addr.ip (from_utf8_lossy given) in
      let d' : Dht = record d { tokens = tokens } in
      elim (Bool-cases (not valid)) [
        | inl wrong ↦ rw wrong silent-Replies
        | inr right ↦ elim (Bool-cases (not (length ih == 20))) [
          | inl odd ↦ rw (right, odd) silent-Replies
          | inr twenty_bytes ↦
              rw (right, twenty_bytes)
                (announced-Replies d.cfg.mode d' remote_id ih given port
                  d.callbacks.on_announce_peer (ip_string addr.ip))
        ]
      ]

  announce_of-Answers :
      (d : Dht) (remote_id : Bytes) (ih given : Option Bytes) (n implied_port : Option ℤ)
      → Answers (announce_of o d t remote_id ih given n implied_port addr)
  announce_of-Answers d remote_id (some ih) (some given) (some n) implied_port =
      announce-Answers d remote_id ih given (implied implied_port (port_of n) addr.port)
  announce_of-Answers d remote_id none given n implied_port = silent-Replies
  announce_of-Answers d remote_id (some ih) none n implied_port = silent-Replies
  announce_of-Answers d remote_id (some ih) (some given) none implied_port = silent-Replies

  on_query-Answers :
      (d : Dht) (now : ℕ) (random q : Bytes) (a : Entries) (remote_id : Bytes)
      → Answers (on_query o d now random t q a remote_id addr)
  unfolding on_query on_ping on_find_node on_get_peers on_announce_peer
  on_query-Answers d now random q a remote_id = elim (Bool-cases (bytes_eq q (codes "ping"))) [
    | inl e ↦ rw e (respond-Replies ((codes "id", bytes (select_id_for d (some remote_id))) ∷ []))
    | inr e1 ↦ elim (Bool-cases (bytes_eq q (codes "find_node"))) [
      | inl e ↦
          rw (e1, e)
            (find_node_in-Answers d.cfg.mode d (twenty (as_bytes (get (codes "target") a))))
      | inr e2 ↦ elim (Bool-cases (bytes_eq q (codes "get_peers"))) [
        | inl e ↦
            rw (e1, e2, e)
              (get_peers_of-Answers d now random (twenty (as_bytes (get (codes "info_hash") a))))
        | inr e3 ↦ elim (Bool-cases (bytes_eq q (codes "announce_peer"))) [
          | inl e ↦
              rw (e1, e2, e3, e)
                (announce_of-Answers d remote_id (as_bytes (get (codes "info_hash") a))
                  (as_bytes (get (codes "token") a)) (as_int (get (codes "port") a))
                  (as_int (get (codes "implied_port") a)))
          | inr e4 ↦ rw (e1, e2, e3, e4) silent-Replies
        ]
      ]
    ]
  ]

  abbrev SaysReply : Act → Type 0
  SaysReply = Says (λ d out. Replies o t addr out)

  note_sender-Says :
      (now : ℕ) (remote_id : Bytes) (r : Handled)
      → Answers r
      → SaysReply (note_sender now remote_id addr r)
  unfolding note_sender
  note_sender-Says now remote_id (d, out, false) h = h
  note_sender-Says now remote_id (d, out, true) h =
      elim (Bool-cases (ltb (len d.routing) d.cfg.max_nodes)) [
        | inl room ↦ rw room (added (add_node now remote_id addr d))
        | inr full ↦ rw full h
      ]
    where
      added : (r : Option Dht) → SaysReply (elim r [ none ↦ none | some d' ↦ some (d', out) ])
      added none = tt
      added (some d') = h

  query_of-Says :
      (d : Dht) (now : ℕ) (random q : Bytes) (a : Entries) (id : Option Bytes)
      → SaysReply (query_of o d now random t q a id addr)
  query_of-Says d now random q a none = refuse-Replies (codes "invalid id")
  query_of-Says d now random q a (some remote_id) =
      note_sender-Says now remote_id (on_query o d now random t q a remote_id addr)
        (on_query-Answers d now random q a remote_id)

  request_of-Says :
      (d : Dht) (now : ℕ) (random : Bytes) (q : Option Bytes) (a : Option Entries)
      → SaysReply (request_of o d now random t q a addr)
  request_of-Says d now random (some q) (some a) =
      query_of-Says d now random q a (twenty (as_bytes (get (codes "id") a)))
  request_of-Says d now random none a = silent-Replies
  request_of-Says d now random (some q) none = silent-Replies

-- For a query, whatever its method and its arguments, the node, unless it panics, sends nothing or
-- one datagram, and that to the packet's sender: a response or an error with code 203, each with
-- the query's transaction id.
pub handle_request-Says :
    (o : Outside) (now : ℕ) (random t : Bytes) (msg : Entries) (addr : SocketAddr) (d : Dht)
    → Says (λ d' out. Replies o t addr out) (handle_request o now random t msg addr d)
unfolding handle_request
handle_request-Says o now random t msg addr d =
    request_of-Says o t addr d now random (method_of (as_bytes (get (codes "q") msg)))
      (as_dict (get (codes "a") msg))
