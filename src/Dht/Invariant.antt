-- ===== src/Dht/Invariant.antt =====
-- What holds of a node between any two events.
use dht_spider.Prelude.{
  length, ℕ, ◌<◌, ◌≤◌, ◌≡◌, refl, ◌∙◌, Bool, true, Option, none, some, arith, Bytes,
}
use dht_spider.Types.{Node, Peer}
use dht_spider.BlackList as BlackList
use dht_spider.BlackList.Laws as Blocks
use dht_spider.Peers as Peers
use dht_spider.Peers.Manager.{IsManager, insert-IsManager}
use dht_spider.Transaction as Transaction
use dht_spider.Transaction.{TransactionManager, gen_id, finish_by_trans_id, mark_retry}
use dht_spider.BlackList.{BlackList}
use dht_spider.Peers.{PeersManager}
use dht_spider.Token.{TokenManager}
use dht_spider.Routing.Table.{RoutingTable}
use dht_spider.Routing.Queries.{remove_by_addr}
use dht_spider.Routing.Pruning.{remove_by_addr-IsCache}
use dht_spider.Std.Map.{length-remove-le}
use dht_spider.Std.Net.{SocketAddr}
use dht_spider.Bencode.Value.{BVal}
use mathlib.Core.Option
use dht_spider.Transaction.Table as Trans
use dht_spider.Transaction.Keyed.{
  IsTable, insert-IsTable, finish_by_trans_id-IsTable, mark_retry-IsTable,
}
use dht_spider.Routing.Table as Table
use dht_spider.Routing.Cache.{IsCache}
use dht_spider.Routing.Total.{IsShaped, new-IsShaped, InsertShaped, insert-IsShaped}
use dht_spider.Routing.Upkeep.{remove_by_addr-IsShaped}
use dht_spider.Routing.Growth.{InsertGrows, insert-IsGrown}
use dht_spider.Config.{Config}
use dht_spider.Dht.{Dht, Outside, new, new_transaction, ask, add_node}

-- Every table within its bound and with one entry for each key.
pub record IsDht (cfg : Config) (d : Dht) : Type 0 where
  pub same_config : d.cfg ≡ cfg
  pub trans : Trans.IsBounded d.trans
  pub table : IsTable d.trans.map
  pub peers : IsManager d.peers
  pub blacklist : Blocks.IsBounded d.blacklist
  pub max_size : d.blacklist.max_size ≡ cfg.blacklist_max_size
  pub cache : IsCache d.routing.cached_nodes
  pub shape : IsShaped d.routing
  pub nodes : Table.len d.routing ≤ cfg.max_nodes

-- A new node has them, and so it has with each part put in place of the old one.
pub new-IsDht : (cfg : Config) (now : ℕ) (self_id : Bytes) → IsDht cfg (new cfg now self_id)
unfolding new Transaction.new Peers.new BlackList.new Table.new
new-IsDht cfg now self_id = record {
  same_config = refl;
  trans = record { bounded = omega arith };
  table = record { keys = tt; keyed = tt };
  peers = record { queues = tt; keys = tt; bounded = omega arith };
  blacklist = record { bounded = omega arith; distinct = tt };
  max_size = refl;
  cache = record { keyed = tt; keys = tt; ids = tt };
  shape = new-IsShaped now cfg.kbucket_size;
  nodes = omega arith;
}

module _ (cfg : Config) (d : Dht) (h : IsDht cfg d) where
  pub with_trans :
      (m : TransactionManager)
      → Trans.IsBounded m
      → IsTable m.map
      → IsDht cfg (record d { trans = m })
  with_trans m b k = record {
    same_config = h.same_config;
    trans = b;
    table = k;
    peers = h.peers;
    blacklist = h.blacklist;
    max_size = h.max_size;
    cache = h.cache;
    shape = h.shape;
    nodes = h.nodes;
  }

  pub with_peers : (m : PeersManager) → IsManager m → IsDht cfg (record d { peers = m })
  with_peers m b = record {
    same_config = h.same_config;
    trans = h.trans;
    table = h.table;
    peers = b;
    blacklist = h.blacklist;
    max_size = h.max_size;
    cache = h.cache;
    shape = h.shape;
    nodes = h.nodes;
  }

  pub with_blacklist :
      (b : BlackList)
      → Blocks.IsBounded b
      → b.max_size ≡ d.blacklist.max_size
      → IsDht cfg (record d { blacklist = b })
  with_blacklist b k e = record {
    same_config = h.same_config;
    trans = h.trans;
    table = h.table;
    peers = h.peers;
    blacklist = k;
    max_size = e ∙ h.max_size;
    cache = h.cache;
    shape = h.shape;
    nodes = h.nodes;
  }

  pub with_tokens : (m : TokenManager) → IsDht cfg (record d { tokens = m })
  with_tokens m = record {
    same_config = h.same_config;
    trans = h.trans;
    table = h.table;
    peers = h.peers;
    blacklist = h.blacklist;
    max_size = h.max_size;
    cache = h.cache;
    shape = h.shape;
    nodes = h.nodes;
  }

  pub with_routing :
      (t : RoutingTable)
      → IsCache t.cached_nodes
      → IsShaped t
      → Table.len t ≤ cfg.max_nodes
      → IsDht cfg (record d { routing = t })
  with_routing t c s b = record {
    same_config = h.same_config;
    trans = h.trans;
    table = h.table;
    peers = h.peers;
    blacklist = h.blacklist;
    max_size = h.max_size;
    cache = c;
    shape = s;
    nodes = b;
  }

  pub ready-IsDht : IsDht cfg (record d { ready = true })
  ready-IsDht = record {
    same_config = h.same_config;
    trans = h.trans;
    table = h.table;
    peers = h.peers;
    blacklist = h.blacklist;
    max_size = h.max_size;
    cache = h.cache;
    shape = h.shape;
    nodes = h.nodes;
  }

  -- Queries, finished transactions, retries, blocked addresses and peers.
  pub ask-IsDht :
      (o : Outside) (now : ℕ) (addr : SocketAddr) (qtype : Bytes) (ih target : Option Bytes)
      (port : Option ℕ) (a : BVal)
      → IsDht cfg (ask o now addr qtype ih target port a d).0
  unfolding ask gen_id
  ask-IsDht o now addr qtype ih target port a =
      let (tid, drawn) = gen_id d.trans in
      let t = new_transaction now tid addr qtype ih target port in
      with_trans (Transaction.insert drawn t).1
        (Trans.insert-IsBounded drawn t (record { bounded = h.trans.bounded }))
        (insert-IsTable drawn t h.table)

  pub finish-IsDht :
      (tid : Bytes) → IsDht cfg (record d { trans = (finish_by_trans_id d.trans tid).1 })
  unfolding finish_by_trans_id
  finish-IsDht tid =
      with_trans (finish_by_trans_id d.trans tid).1
        (record { bounded = omega (arith, length-remove-le tid d.trans.map, h.trans.bounded) })
        (finish_by_trans_id-IsTable d.trans tid h.table)

  pub retry-IsDht :
      (now : ℕ) (tid : Bytes) → IsDht cfg (record d { trans = mark_retry d.trans now tid })
  retry-IsDht now tid =
      with_trans (mark_retry d.trans now tid) (Trans.mark_retry-IsBounded d.trans now tid h.trans)
        (mark_retry-IsTable d.trans now tid h.table)

  pub ban-IsDht :
      (now : ℕ) (ip : Bytes) (port : Option ℕ)
      → IsDht cfg (record d { blacklist = BlackList.insert d.blacklist now ip port })
  ban-IsDht now ip port =
      with_blacklist (BlackList.insert d.blacklist now ip port)
        (Blocks.insert-IsBounded d.blacklist now ip port h.blacklist)
        (Blocks.max_size-insert d.blacklist now ip port)

  pub peer-IsDht :
      (ih : Bytes) (p : Peer) → IsDht cfg (record d { peers = Peers.insert d.peers ih p })
  peer-IsDht ih p = with_peers (Peers.insert d.peers ih p) (insert-IsManager d.peers ih p h.peers)

  pub remove-IsDht :
      (now : ℕ) (addr : Bytes)
      → IsDht cfg (record d { routing = remove_by_addr d.routing now addr })
  remove-IsDht now addr =
      let (c, shorter) = remove_by_addr-IsCache d.routing now addr h.cache in
      with_routing (remove_by_addr d.routing now addr) c
        (remove_by_addr-IsShaped d.routing now addr h.shape) (omega (arith, shorter, h.nodes))

  abbrev pub IsAdded : Option Dht → Type 0
  IsAdded none = ⊥
  IsAdded (some d') = IsDht cfg d'

  pub add_node-IsAdded :
      (now : ℕ) (id : Bytes) (addr : SocketAddr)
      → length id ≡ 20
      → Table.len d.routing < cfg.max_nodes
      → IsAdded (add_node now id addr d)
  unfolding add_node
  add_node-IsAdded now id addr len room =
      let n : Node = record { id = id; addr = addr; last_active = now } in
      outcome (Table.insert d.routing now n) (insert-IsGrown d.routing now n len)
        (insert-IsShaped d.routing now n len h.shape)
    where
      outcome :
          (r : Option (Bool × RoutingTable))
          → InsertGrows d.routing r
          → InsertShaped r
          → IsAdded (Option.map (λ (x : Bool × RoutingTable). record d { routing = x.1 }) r)
      outcome none g s = absurd s
      outcome (some (r, t)) g s =
          with_routing t (g.cache h.cache) s (omega (arith, g.at_most_one, room))
