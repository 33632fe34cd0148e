-- ===== src/Dht/Exchange.antt =====
-- What one node asks, another one answers: queries from their making to the answer.
use mathlib.Core.Option
use dht_spider.Prelude.{
  ℕ, ◌^◌, ◌<◌, ◌≡◌, refl, sym, ap, ◌∙◌, true, false, none, some, List, [], ◌∷◌, All, map, arith,
  Bytes, codes, length, ltb, append_assoc, ◌==◌, ==_iff, if◌then◌else◌,
}
use dht_spider.Std.Net.{SocketAddr}
use dht_spider.Std.Display.{ip_string}
use dht_spider.Std.Order.{bytes_cmp, bytes_eq}
use dht_spider.Std.Utf8.{from_utf8, is_utf8}
use dht_spider.Types.{Node, Mode, standard, crawl, ok, ◌>>=◌}
use dht_spider.Util.{encode_compact_ip_port, NodeInfo, decode_compact_nodes}
use dht_spider.Util.Laws.{
  IsCompact, compact_nodes, compact_node, decode_compact_nodes-compact_nodes,
}
use dht_spider.Bencode.Value.{BVal, bytes, dict, Entries, empty, entry, get, dict_of, IsValue}
use dht_spider.Krpc.{make_query, make_response, decode_value, parse_message}
use dht_spider.Krpc.Messages.{
  query, response, parse_message-make_query, parse_message-make_response,
}
use dht_spider.BlackList as BlackList
use dht_spider.Routing.Queries.{neighbors_by_target, get_neighbors_compact, compact_list}
use dht_spider.Routing.Table.{len}
use dht_spider.Dht.{Dht, sends, Outside, near, select_id_for, find_node_args, add_node}
use dht_spider.Dht.Request.{
  respond, on_find_node, find_node_in, on_query, note_sender, handle_request,
}
use dht_spider.Dht.Response.{dispatch, handle_packet}

abbrev pub info : Node → NodeInfo
info n = record { id = n.id; ip = n.addr.ip; port = n.addr.port }

near-none : (mode : Mode) (id : Bytes) → near mode id none ≡ id
near-none standard id = refl
near-none crawl id = refl

select_id_for-none : (d : Dht) → select_id_for d none ≡ d.self_id
unfolding select_id_for
select_id_for-none d = near-none d.cfg.mode d.self_id

compact_list-nodes : (ns : List Node) → compact_list ns ≡ compact_nodes (map info ns)
unfolding compact_list compact_nodes compact_node
compact_list-nodes [] = refl
compact_list-nodes (n ∷ ns) = rw (compact_list-nodes ns) (
    sym (
      append_assoc n.id (Option.get_or (encode_compact_ip_port n.addr.ip n.addr.port) [])
        (compact_nodes (map info ns))))

-- The arguments of a query for nodes, in the order of their keys.
abbrev asked_for : Bytes → Bytes → BVal
asked_for id target =
    dict (entry (codes "id") (bytes id) (entry (codes "target") (bytes target) empty))

asked_for-IsValue :
    (id target : Bytes) → length id ≡ 20 → length target ≡ 20 → IsValue (asked_for id target)
unfolding IsValue is_utf8 bytes_cmp
asked_for-IsValue id target hi ht = (
  (refl, omega arith),
  omega (arith, hi),
  (refl, tt),
  ((refl, omega arith), omega (arith, ht), tt, tt),
)

find_node_args-asked_for :
    (o : Outside) (d : Dht) (target : Bytes)
    → find_node_args o d target ≡ asked_for d.self_id target
unfolding dict_of bytes_cmp
find_node_args-asked_for o d target = rw (select_id_for-none d) refl

-- A query with a sender's id of twenty bytes comes to its handler.
dispatch-on_query :
    (o : Outside) (d : Dht) (now : ℕ) (random t q : Bytes) (a : Entries) (id : Bytes)
    (addr : SocketAddr)
    → from_utf8 q ≡ some q
    → get (codes "id") a ≡ some (bytes id)
    → length id ≡ 20
    → dispatch o now random t (codes "q") (query t q (dict a)) addr d
      ≡ note_sender now id addr (on_query o d now random t q a id addr)
unfolding dispatch handle_request bytes_eq bytes_cmp get
dispatch-on_query o d now random t q a id addr text named hi =
    let si : (length id == 20) ≡ true = (==_iff _ _).1 hi in rw (text, named, si) refl

-- The values of the answer, in the order of their keys.
abbrev pub told : Bytes → Bytes → BVal
told id nodes = dict (entry (codes "id") (bytes id) (entry (codes "nodes") (bytes nodes) empty))

told-IsValue : (id nodes : Bytes) → length id ≡ 20 → length nodes < 2 ^ 64 → IsValue (told id nodes)
unfolding IsValue is_utf8 bytes_cmp
told-IsValue id nodes hi hn =
    ((refl, omega arith), omega (arith, hi), (refl, tt), ((refl, omega arith), hn, tt, tt))

-- The bytes that go out for a query with a transaction id.
abbrev pub reply : Outside → Dht → Bytes → Bytes → Bytes
reply o d t target =
    make_response o.itoa t (told d.self_id (get_neighbors_compact d.routing target d.cfg.k))

find_node_in-standard :
    (o : Outside) (mode : Mode) (d : Dht) (t target : Bytes) (addr : SocketAddr)
    → mode ≡ standard
    → select_id_for d (some target) ≡ d.self_id
    → find_node_in o mode d t (some target) addr ≡ (d, sends addr (reply o d t target) ∷ [], true)
unfolding respond dict_of bytes_cmp
find_node_in-standard o standard d t target addr e id = rw id refl
find_node_in-standard o crawl d t target addr e id = cc

select_id_for-standard :
    (d : Dht) (target : Bytes) → d.cfg.mode ≡ standard → select_id_for d (some target) ≡ d.self_id
unfolding select_id_for
select_id_for-standard d target mode = rw mode refl

on_query-find_node :
    (o : Outside) (d : Dht) (now : ℕ) (random t id target : Bytes) (a : Entries) (addr : SocketAddr)
    → d.cfg.mode ≡ standard
    → get (codes "target") a ≡ some (bytes target)
    → length target ≡ 20
    → on_query o d now random t (codes "find_node") a id addr
      ≡ (d, sends addr (reply o d t target) ∷ [], true)
unfolding on_query on_find_node bytes_eq
on_query-find_node o d now random t id target a addr mode aimed ht =
    let st : (length target == 20) ≡ true = (==_iff _ _).1 ht in
    rw (aimed, st)
      (find_node_in-standard o d.cfg.mode d t target addr mode
        (select_id_for-standard d target mode))

-- A packet with a query from an address that is not blocked.
handle_packet-make_query :
    (o : Outside) (d : Dht) (now : ℕ) (random t q : Bytes) (a : Entries) (id : Bytes)
    (addr : SocketAddr)
    → BlackList.contains d.blacklist now (ip_string addr.ip) (some addr.port) ≡ false
    → length t < 2 ^ 64
    → length q < 2 ^ 64
    → IsValue (dict a)
    → length (make_query o.itoa t q (dict a)) < 2 ^ 64
    → from_utf8 q ≡ some q
    → get (codes "id") a ≡ some (bytes id)
    → length id ≡ 20
    → handle_packet o now random (make_query o.itoa t q (dict a)) addr d
      ≡ note_sender now id addr (on_query o d now random t q a id addr)
unfolding handle_packet
handle_packet-make_query o d now random t q a id addr free ht hq ha hl text named hi =
    let arrived = (parse_message-make_query o.itoa t q (dict a) ht hq ha hl).0 in
    rw (free, arrived) (dispatch-on_query o d now random t q a id addr text named hi)

pub handle_packet-find_node :
    (o : Outside) (asker d : Dht) (now : ℕ) (random t target : Bytes) (addr : SocketAddr)
    → d.cfg.mode ≡ standard
    → BlackList.contains d.blacklist now (ip_string addr.ip) (some addr.port) ≡ false
    → length asker.self_id ≡ 20
    → length d.self_id ≡ 20
    → length target ≡ 20
    → length t < 2 ^ 64
    → length (make_query o.itoa t (codes "find_node") (find_node_args o asker target)) < 2 ^ 64
    → length (get_neighbors_compact d.routing target d.cfg.k) < 2 ^ 64
    → length (reply o d t target) < 2 ^ 64
    → All IsCompact (map info (neighbors_by_target d.routing target d.cfg.k))
    → (handle_packet o now random
          (make_query o.itoa t (codes "find_node") (find_node_args o asker target))
          addr
          d
        ≡ (if ltb (len d.routing) d.cfg.max_nodes
            then elim (add_node now asker.self_id addr d) [
              | none ↦ none
              | some d' ↦ some (d', sends addr (reply o d t target) ∷ [])
            ]
            else some (d, sends addr (reply o d t target) ∷ [])))
      × (decode_value (reply o d t target) >>= parse_message
          ≡ ok (
            t,
            codes "r",
            response t (told d.self_id (get_neighbors_compact d.routing target d.cfg.k)),
          ))
      × (decode_compact_nodes (get_neighbors_compact d.routing target d.cfg.k)
          ≡ map info (neighbors_by_target d.routing target d.cfg.k))
unfolding get_neighbors_compact from_utf8 get bytes_cmp note_sender
handle_packet-find_node o asker d now random t target addr mode free hi hd hg ht hl hn hr compact =
    let id = asker.self_id in
    let a = entry (codes "id") (bytes id) (entry (codes "target") (bytes target) empty) in
    let e = find_node_args-asked_for o asker target in
    let nodes = get_neighbors_compact d.routing target d.cfg.k in
    let infos = map info (neighbors_by_target d.routing target d.cfg.k) in
    (
      rw e (
          handle_packet-make_query o d now random t (codes "find_node") a id addr free ht
            (omega arith) (asked_for-IsValue id target hi hg) (rw e at hl) refl refl hi
          ∙ ap (note_sender now id addr)
              (on_query-find_node o d now random t id target a addr mode refl hg)),
      (parse_message-make_response o.itoa t (told d.self_id nodes) ht
          (told-IsValue d.self_id nodes hd hn) hr).0,
      ap decode_compact_nodes (compact_list-nodes (neighbors_by_target d.routing target d.cfg.k))
          ∙ decode_compact_nodes-compact_nodes infos compact,
    )
