-- ===== src/Dht.antt =====
-- src/dht.rs: the node of the distributed hash table. Here are its state and the queries it sends;
-- the modules below have what it does with a request, a response, a tick of its clock and a
-- command. What it sends and reports is a list of outputs. The crates hex, itoa and tokio's
-- resolver are parameters. `Instant`s and `Duration`s are nanoseconds.
pub mod Request
pub mod Response
pub mod Tick
pub mod Command
pub mod Acts
pub mod Invariant
pub mod RequestKeeps
pub mod FoundKeeps
pub mod ResponseKeeps
pub mod TimeoutKeeps
pub mod TickKeeps
pub mod Loop
mod Tests
pub mod Identity
pub mod Announcing
pub mod Exchange
pub mod Leaks
pub mod Announce
pub mod Bans
pub mod Replies
use mathlib.Core.Option
use dht_spider.Prelude.{
  ℕ, suc, ◌+◌, ◌-◌, ◌*◌, ◌^◌, Bool, true, false, Option, none, some, List, [], ◌∷◌, ◌++◌, Bytes,
  codes, length, take, drop, ltb, ◌==◌, if◌then◌else◌, ◌⊎◌,
}
use dht_spider.Std.Decimal.{ℤ, pos}
use dht_spider.Std.Net.{SocketAddr}
use dht_spider.Config.{Config}
use dht_spider.Types.{Node, Peer, Mode, standard, crawl}
use dht_spider.Bencode.Value.{BVal, bytes, int, list, dict, Entries, get, dict_of}
use dht_spider.Bencode.Encode.{Itoa}
use dht_spider.Krpc.{make_query}
use dht_spider.BlackList as BlackList
use dht_spider.BlackList.{BlackList, secs}
use dht_spider.Peers as Peers
use dht_spider.Peers.{PeersManager}
use dht_spider.Token as Token
use dht_spider.Token.{TokenManager}
use dht_spider.Transaction as Transaction
use dht_spider.Transaction.{Transaction, TransactionManager, gen_id}
use dht_spider.Routing.Table as Table
use dht_spider.Routing.Table.{RoutingTable}

-- Which callbacks are set.
pub record DhtCallbacks : Type 0 where
  pub on_get_peers : Bool
  pub on_get_peers_response : Bool
  pub on_announce_peer : Bool
  pub on_node : Bool

-- The socket is the list of what is sent.
pub record Dht : Type 0 where
  pub cfg : Config
  pub peers : PeersManager
  pub blacklist : BlackList
  pub routing : RoutingTable
  pub ready : Bool
  pub callbacks : DhtCallbacks
  pub self_id : Bytes
  pub tokens : TokenManager
  pub trans : TransactionManager

-- A datagram, or a call of one of the callbacks.
pub data Output : Type 0 where
  sends : SocketAddr → Bytes → Output
  peers_asked : Bytes → Bytes → ℕ → Output
  peers_answered : Bytes → Peer → Output
  peer_announced : Bytes → Bytes → ℕ → Output
  node_found : Bytes → Bytes → ℕ → Output

-- The code of other crates.
pub record Outside : Type 0 where
  pub itoa : Itoa
  pub hex_encode : Bytes → Bytes
  pub hex_decode : Bytes → Bytes ⊎ Bytes
  pub parse_addr : Bytes → Option SocketAddr

-- The state after some work, and what went out; `none` is a panic.
abbrev pub Act : Type 0
Act = Option (Dht × List Output)

abbrev pub quiet : Dht → Act
quiet d = some (d, [])

abbrev pub behind : List Output → Act → Act
behind out none = none
behind out (some (d, more)) = some (d, out ++ more)

abbrev pub and_then : Act → (Dht → Act) → Act
and_then none f = none
and_then (some (d, out)) f = behind out (f d)

-- One round for each element of a list.
unfoldable pub each {ℓ} : {A : Type ℓ} → (Dht → A → Act) → List A → Dht → Act
each f [] d = quiet d
each f (x ∷ xs) d = and_then (f d x) (each f xs)

unfoldable pub new : Config → ℕ → Bytes → Dht
unfolding Peers.new BlackList.new Token.new Transaction.new Table.new
new cfg now self_id = record {
  cfg = cfg;
  peers = Peers.new cfg.k;
  blacklist = BlackList.new cfg.blacklist_max_size;
  routing = Table.new now cfg.kbucket_size;
  ready = false;
  callbacks = record {
    on_get_peers = false;
    on_get_peers_response = false;
    on_announce_peer = false;
    on_node = false;
  };
  self_id = self_id;
  tokens = Token.new cfg.token_expired_after;
  trans = Transaction.new (2 ^ 63 - 1);
}

abbrev near : Mode → Bytes → Option Bytes → Bytes
near standard self_id target = self_id
near crawl self_id none = self_id
near crawl self_id (some t) = take 15 t ++ drop 15 self_id

unfoldable pub select_id_for : Dht → Option Bytes → Bytes
select_id_for d target = near d.cfg.mode d.self_id target

abbrev pub new_transaction :
    ℕ → Bytes → SocketAddr → Bytes → Option Bytes → Option Bytes → Option ℕ → Transaction
new_transaction now tid addr qtype info_hash target announce_port = record {
  trans_id_bytes = tid;
  addr = addr;
  qtype = qtype;
  responder = true;
  info_hash = info_hash;
  target = target;
  announce_port = announce_port;
  announce_implied_port = false;
  created_at = now;
  retries = 0;
}

module _ (o : Outside) where
  -- A new transaction and its query; a full table drops the transaction, and the query is sent
  -- still.
  unfoldable pub ask :
      ℕ
      → SocketAddr
      → Bytes
      → Option Bytes
      → Option Bytes
      → Option ℕ
      → BVal
      → Dht
      → Dht × List Output
  unfolding gen_id Transaction.insert make_query
  ask now addr qtype info_hash target announce_port a d =
      let (tid, trans) = gen_id d.trans in
      let t = new_transaction now tid addr qtype info_hash target announce_port in
      (
        record d { trans = (Transaction.insert trans t).1 },
        sends addr (make_query o.itoa tid qtype a) ∷ [],
      )

  abbrev pub get_peers_args : Dht → Bytes → BVal
  get_peers_args d ih =
      dict_of ((codes "id", bytes (select_id_for d (some ih))) ∷ (codes "info_hash", bytes ih) ∷ [])

  abbrev pub find_node_args : Dht → Bytes → BVal
  find_node_args d target =
      dict_of ((codes "id", bytes (select_id_for d none)) ∷ (codes "target", bytes target) ∷ [])

  abbrev pub ask_get_peers : ℕ → SocketAddr → Bytes → Option ℕ → Dht → Dht × List Output
  ask_get_peers now addr ih announce_port d =
      ask now addr (codes "get_peers") (some ih) none announce_port (get_peers_args d ih) d

  abbrev pub ask_find_node : ℕ → SocketAddr → Bytes → Dht → Dht × List Output
  ask_find_node now addr target d =
      ask now addr (codes "find_node") none (some target) none (find_node_args d target) d

  abbrev pub ask_ping : ℕ → SocketAddr → Dht → Dht × List Output
  ask_ping now addr d =
      ask now addr (codes "ping") none none none
        (dict_of ((codes "id", bytes (select_id_for d none)) ∷ [])) d

abbrev pub as_bytes : Option BVal → Option Bytes
as_bytes none = none
as_bytes (some (bytes b)) = some b
as_bytes (some (int n)) = none
as_bytes (some (list l)) = none
as_bytes (some (dict m)) = none

abbrev pub as_int : Option BVal → Option ℤ
as_int none = none
as_int (some (int n)) = some n
as_int (some (bytes b)) = none
as_int (some (list l)) = none
as_int (some (dict m)) = none

abbrev pub as_dict : Option BVal → Option Entries
as_dict none = none
as_dict (some (dict m)) = some m
as_dict (some (bytes b)) = none
as_dict (some (int n)) = none
as_dict (some (list l)) = none

-- A string of twenty bytes.
abbrev pub twenty : Option Bytes → Option Bytes
twenty none = none
twenty (some b) = if length b == 20 then some b else none

abbrev pub emits : Bool → Output → List Output
emits set out = if set then out ∷ [] else []

-- A node that was heard of goes into the table.
unfoldable pub add_node : ℕ → Bytes → SocketAddr → Dht → Option Dht
unfolding Table.insert
add_node now id addr d =
    Option.map (λ (r : Bool × RoutingTable). record d { routing = r.1 })
      (Table.insert d.routing now (record { id = id; addr = addr; last_active = now }))
