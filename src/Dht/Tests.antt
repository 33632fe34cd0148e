-- ===== src/Dht/Tests.antt =====
-- Runs of a node, and the theorems at concrete packets.
use dht_spider.Prelude.{
  ◌≡◌, refl, none, some, List, [], ◌∷◌, map, arith, inr, Bytes, codes, replicate, ltb,
  if◌then◌else◌,
}
use dht_spider.Std.Decimal.{pos, decimal, decimal_i64, digits}
use dht_spider.Std.Net.{v4, SocketAddr, addr_eq}
use dht_spider.Std.Display.{ip_string, addr_string}
use dht_spider.Std.Order.{bytes_cmp, bytes_eq}
use dht_spider.Std.Map as Map
use dht_spider.Std.Utf8.{from_utf8, from_utf8_lossy}
use dht_spider.Types.{Node, Peer, ok, ◌>>=◌}
use dht_spider.Util.{decode_compact_nodes}
use dht_spider.Bencode.Value.{bytes, int, dict, Entries, empty, entry, get, dict_of}
use dht_spider.Bencode.Encode.{display, encode}
use dht_spider.Krpc.{make_query, decode_value, parse_message}
use dht_spider.Krpc.Messages.{response}
use dht_spider.BlackList as BlackList
use dht_spider.BlackList.{secs}
use dht_spider.Token as Token
use dht_spider.Transaction.{Transaction, get_by_trans_id}
use dht_spider.Routing.Queries.{neighbors_by_target, get_neighbors_compact, remove_by_addr}
use dht_spider.Routing.Table.{len}
use dht_spider.Config.{default}
use dht_spider.Dht.{
  Dht, Outside, quiet, new, new_transaction, select_id_for, find_node_args, add_node, sends,
}
use dht_spider.Dht.Request.{on_ping, on_get_peers, on_announce_peer, handle_request}
use dht_spider.Dht.Response.{on_response, handle_packet}
use dht_spider.Dht.Tick.{give_up_start, give_up_run, ban, forget, timeouts, refresh}
use dht_spider.Dht.Command.{Event, ticks, commands, receives, shutdown, start, run}
use dht_spider.Dht.Acts.{Says, Keeps}
use dht_spider.Dht.Invariant.{IsDht}
use dht_spider.Dht.Loop.{start-Keeps}
use dht_spider.Dht.Replies.{Replies, handle_request-Says}
use dht_spider.Dht.Announce.{meant_port, kept, announce-get_peers}
use dht_spider.Dht.Announcing.{Ends, on_response-Says}
use dht_spider.Dht.Bans.{handle_packet-give_up}
use dht_spider.Dht.Leaks.{refresh-timeouts}
use dht_spider.Dht.Exchange.{info, told, reply, handle_packet-find_node}

program : Unit {0}
unfolding new on_ping bytes_eq bytes_cmp decimal decimal_i64 digits ip_string addr_string get encode
    dict_of make_query select_id_for addr_eq BlackList.contains Map.get Map.contains_key Map.insert
    get_by_trans_id from_utf8 neighbors_by_target
program = tt

-- Stand-ins for the other crates: no text is hexadecimal or an address.
abbrev outside : Outside
outside = record {
  itoa = display;
  hex_encode = λ s. s;
  hex_decode = λ s. inr s;
  parse_addr = λ s. none;
}

abbrev node : Dht
unfolding program default
node = new default 0 (replicate 20 1)

abbrev caller : SocketAddr
caller = record { ip = v4 10 0 0 7; port = 6881 }

abbrev key : Bytes
key = replicate 20 9

-- What the loop receives: a tick, a packet that is no message, and a command to stop.
abbrev events : List Event
events =
    ticks (secs 30) (λ i. replicate 20 0) (λ host. caller ∷ [])
    ∷ receives (secs 31) [] (codes "no message") caller
    ∷ commands (secs 32) shutdown
    ∷ []

start-Keeps_example :
    Keeps (IsDht default) (start outside events (new default 0 (replicate 20 1)))
    × Keeps (IsDht default) (run outside events (new default 0 (replicate 20 1)))
unfolding default
start-Keeps_example =
    start-Keeps outside default 0 (replicate 20 1) events (omega arith)
      ((λ i. refl), (tt, (tt, tt)))

abbrev search : Entries
search = entry (codes "id") (bytes key) (entry (codes "info_hash") (bytes key) empty)

abbrev query : Entries
query = entry (codes "a") (dict search) (entry (codes "q") (bytes (codes "get_peers")) empty)

handle_request-Says_example :
    Says
      (λ d' out. Replies outside (codes "x1") caller out)
      (handle_request outside (secs 5) (codes "abcde") (codes "x1") query caller node)
handle_request-Says_example =
    handle_request-Says outside (secs 5) (codes "abcde") (codes "x1") query caller node

-- An announcement with the token that was given.
abbrev announcement : Entries
announcement =
    entry (codes "info_hash") (bytes key)
      (entry (codes "port") (int (pos 7000)) (entry (codes "token") (bytes (codes "abcde")) empty))

announce-get_peers_example :
    let d1 = (on_get_peers outside node (secs 5) (codes "abcde") (codes "x1") search caller).0 in
    let d2 = (on_announce_peer outside d1 (codes "x2") announcement key caller).0 in
    let port = meant_port (get (codes "implied_port") announcement) 7000 caller.port in
    let text = from_utf8_lossy (codes "abcde") in
    let valid = bytes_eq (Token.token node.tokens (secs 5) (codes "abcde") caller.ip).0 text in
    let p : Peer = record { ip = caller.ip; port = port; token = some text } in
    (d2.peers ≡ kept valid node.peers key p)
    × ((on_announce_peer outside d2 (codes "x2") announcement key caller).0.peers ≡ d2.peers)
unfolding program node
announce-get_peers_example =
    announce-get_peers outside node (secs 5) (codes "abcde") (codes "x1") (codes "x2") key key
      (codes "abcde") search announcement 7000 caller refl refl refl refl refl refl (omega arith)

abbrev asked : Transaction
asked = new_transaction 0 (codes "x1") caller (codes "get_peers") (some key) none (some 7000)

abbrev answer : Entries
answer = entry (codes "id") (bytes key) (entry (codes "token") (bytes (codes "abcde")) empty)

on_response-Says_example :
    Says
      (Ends outside
        (secs 5)
        (codes "x1")
        answer
        key
        key
        (codes "abcde")
        7000
        caller
        asked
        (replicate 20 1))
      (on_response outside (secs 5) (codes "x1") answer key caller (some asked) node)
unfolding program node
on_response-Says_example =
    on_response-Says outside (secs 5) (codes "x1") answer key key (codes "abcde") 7000 caller asked
      node refl refl refl refl refl

abbrev with : Transaction → Dht
with t = record node { trans = record node.trans { map = (t.trans_id_bytes, t) ∷ [] } }

handle_packet-give_up_example :
    let d' = forget (codes "x1") (ban (secs 60) caller (with asked)) in
    let dropped : Dht = forget (codes "x1") (record (with asked) {
      routing = remove_by_addr (with asked).routing (secs 60) (addr_string caller);
    }) in
    (give_up_run (secs 60) (with asked) (codes "x1") ≡ quiet d')
    × (give_up_start (secs 60) (with asked) (codes "x1")
        ≡ (if bytes_eq (codes "get_peers") (codes "ping") then quiet dropped else quiet d'))
    × (get_by_trans_id d'.trans (codes "x1") ≡ none)
    × (get_by_trans_id dropped.trans (codes "x1") ≡ none)
    × (handle_packet outside (secs 90) [] (codes "d1:y1:qe") caller d' ≡ quiet d')
unfolding program node
handle_packet-give_up_example =
    handle_packet-give_up outside (with asked) asked (secs 60) (secs 90) (codes "x1") []
      (codes "d1:y1:qe") refl (omega arith) refl (omega arith)

abbrev pinged : Transaction
pinged = new_transaction 0 (codes "x1") caller (codes "ping") none none none

refresh-timeouts_example :
    Says
      (λ d' out.
        (get_by_trans_id d'.trans (codes "x1") ≡ some pinged)
        × (refresh outside (secs 9000) (λ i. replicate 20 0) d' ≡ quiet d'))
      (timeouts outside (secs 9000) (give_up_start (secs 9000)) (with pinged))
unfolding program node default
refresh-timeouts_example =
    refresh-timeouts outside (with pinged) (secs 9000) (secs 9000) (λ i. replicate 20 0)
      (codes "x1") pinged (record { keys = (refl, tt); keyed = (refl, tt) }) refl refl refl
      (omega arith)

-- A node that knows one other, and is asked for it.
abbrev known : Node
known = record { id = key; addr = record { ip = v4 10 0 0 8; port = 6882 }; last_active = 0 }

abbrev knowing : Dht
knowing = record node {
  routing = record node.routing { cached_nodes = (codes "10.0.0.8:6882", known) ∷ [] };
}

handle_packet-find_node_example :
    (handle_packet outside
        (secs 5)
        []
        (make_query display (codes "x1") (codes "find_node") (find_node_args outside node key))
        caller
        knowing
      ≡ (if ltb (len knowing.routing) 5000
          then elim (add_node (secs 5) (replicate 20 1) caller knowing) [
            | none ↦ none
            | some d' ↦ some (d', sends caller (reply outside knowing (codes "x1") key) ∷ [])
          ]
          else some (knowing, sends caller (reply outside knowing (codes "x1") key) ∷ [])))
    × (decode_value (reply outside knowing (codes "x1") key) >>= parse_message
        ≡ ok (
          codes "x1",
          codes "r",
          response
              (codes "x1")
              (told (replicate 20 1) (get_neighbors_compact knowing.routing key 8)),
        ))
    × (decode_compact_nodes (get_neighbors_compact knowing.routing key 8)
        ≡ map info (neighbors_by_target knowing.routing key 8))
unfolding program node default get_neighbors_compact
handle_packet-find_node_example =
    handle_packet-find_node outside node knowing (secs 5) [] (codes "x1") key caller refl refl refl
      refl refl (omega arith) (omega arith) (omega arith) (omega arith)
      (
        record {
          id_length = refl;
          ip_v4 = (omega arith, omega arith, omega arith, omega arith);
          port_u16 = omega arith;
        },
        tt,
      )
