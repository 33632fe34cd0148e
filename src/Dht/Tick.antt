-- ===== src/Dht/Tick.antt =====
-- The timer of src/dht.rs: joining, timeouts, retries, refreshing and cleaning, in the loop of
-- `run` and in that of `start`.
use dht_spider.Prelude.{
  ℕ, Bool, true, false, Option, none, some, List, [], ◌∷◌, Bytes, codes, ◌==◌, if◌then◌else◌,
}
use dht_spider.Std.Net.{SocketAddr}
use dht_spider.Std.Display.{ip_string, addr_string}
use dht_spider.Std.Order.{bytes_eq}
use dht_spider.Types.{Mode, standard, crawl}
use dht_spider.Bencode.Value.{BVal}
use dht_spider.Krpc.{make_query}
use dht_spider.BlackList as BlackList
use dht_spider.Token as Token
use dht_spider.Transaction as Transaction
use dht_spider.Transaction.{
  Transaction, get_by_trans_id, get_by_index, finish_by_trans_id, scan_timeouts, mark_retry,
}
use dht_spider.Routing.Table as Table
use dht_spider.Routing.Queries.{remove_by_addr, fresh_plan, collect_expired_nodes, prune}
use dht_spider.Dht.{
  Dht, sends, Outside, Act, quiet, and_then, each, ask, ask_find_node, ask_ping, get_peers_args,
  find_node_args,
}
use dht_spider.Dht.Response.{is_unknown}

-- `Duration::from_secs(10)`, in seconds
abbrev pub query_timeout : ℕ
query_timeout = 10

abbrev pub forget : Bytes → Dht → Dht
forget tid d = record d { trans = (finish_by_trans_id d.trans tid).1 }

abbrev pub ban : ℕ → SocketAddr → Dht → Dht
ban now addr d = record d {
  blacklist = BlackList.insert d.blacklist now (ip_string addr.ip) (some addr.port);
}

abbrev pub blamed : ℕ → Option Transaction → Dht → Dht
blamed now none d = d
blamed now (some t) d = ban now t.addr d

-- The loop of `run` over the ids to give up, one round.
unfoldable pub give_up_run : ℕ → Dht → Bytes → Act
unfolding finish_by_trans_id get_by_trans_id BlackList.insert ip_string
give_up_run now d tid = quiet (forget tid (blamed now (get_by_trans_id d.trans tid) d))

-- In `start` a node that does not answer a ping leaves the routing table instead.
abbrev pub blamed_or_dropped : ℕ → Option Transaction → Dht → Dht
blamed_or_dropped now none d = d
blamed_or_dropped now (some t) d =
    if bytes_eq t.qtype (codes "ping")
    then record d { routing = remove_by_addr d.routing now (addr_string t.addr) }
    else ban now t.addr d

unfoldable pub give_up_start : ℕ → Dht → Bytes → Act
unfolding finish_by_trans_id get_by_trans_id BlackList.insert ip_string remove_by_addr addr_string
    bytes_eq
give_up_start now d tid = quiet (forget tid (blamed_or_dropped now (get_by_trans_id d.trans tid) d))

abbrev pub is_crawling : Mode → Bool
is_crawling standard = false
is_crawling crawl = true

unfoldable pub clear_node : ℕ → Dht → Bytes → Act
unfolding remove_by_addr
clear_node now d addr = quiet (record d { routing = remove_by_addr d.routing now addr })

unfoldable pub clean : ℕ → Dht → Dht
unfolding Token.clear_expired BlackList.clear_expired
clean now d = record d {
  tokens = Token.clear_expired d.tokens now;
  blacklist = BlackList.clear_expired d.blacklist now;
}

unfoldable pub prune_table : ℕ → Dht → Dht
unfolding prune
prune_table now d = record d {
  routing = prune d.routing now d.cfg.node_expired_after d.cfg.max_nodes;
}

module _ (o : Outside) where
  unfoldable pub find_self : ℕ → Dht → SocketAddr → Act
  unfolding ask
  find_self now d addr = some (ask_find_node o now addr d.self_id d)

  abbrev pub join_parsed : ℕ → Option SocketAddr → Dht → Act
  join_parsed now none d = quiet d
  join_parsed now (some addr) d = find_self now d addr

  -- The addresses that the resolver gives for a host, none for an error.
  abbrev pub join_host : ℕ → Bytes → List SocketAddr → Dht → Act
  join_host now host [] d = join_parsed now (o.parse_addr host) d
  join_host now host (addr ∷ addrs) d = each (find_self now) (addr ∷ addrs) d

  unfoldable pub join : ℕ → (Bytes → List SocketAddr) → Dht → Act
  unfolding find_self each
  join now lookup_host d =
      each (λ (d' : Dht) (host : Bytes). join_host now host (lookup_host host) d') d.cfg.prime_nodes
        d

  abbrev pub again : ℕ → Transaction → Bytes → BVal → Dht → Act
  again now t qtype a d = some (
    record d { trans = mark_retry d.trans now t.trans_id_bytes },
    sends t.addr (make_query o.itoa t.trans_id_bytes qtype a) ∷ [],
  )

  abbrev pub retry_get_peers : ℕ → Transaction → Option Bytes → Dht → Act
  retry_get_peers now t none d = quiet d
  retry_get_peers now t (some ih) d = again now t (codes "get_peers") (get_peers_args o d ih) d

  abbrev pub retry_find_node : ℕ → Transaction → Option Bytes → Dht → Act
  retry_find_node now t none d = quiet d
  retry_find_node now t (some target) d =
      again now t (codes "find_node") (find_node_args o d target) d

  -- Only these two kinds of query are sent again.
  unfoldable pub retry : ℕ → Dht → Transaction → Act
  unfolding mark_retry make_query bytes_eq
  retry now d t =
      if bytes_eq t.qtype (codes "get_peers")
      then retry_get_peers now t t.info_hash d
      else if bytes_eq t.qtype (codes "find_node")
      then retry_find_node now t t.target d
      else quiet d

  unfoldable pub timeouts : ℕ → (Dht → Bytes → Act) → Dht → Act
  unfolding scan_timeouts retry each
  timeouts now give_up d =
      let (to_retry, to_remove) = scan_timeouts d.trans now query_timeout d.cfg.try_times in
      and_then (each (retry now) to_retry d) (each give_up to_remove)

  unfoldable pub refresh_node : ℕ → Dht → SocketAddr × Bytes → Act
  unfolding ask
  refresh_node now d (addr, target) = some (ask_find_node o now addr target d)

  abbrev pub planned : ℕ → Option (List (SocketAddr × Bytes) × List Bytes) → Dht → Act
  planned now none d = none
  planned now (some (tasks, clear)) d =
      and_then (each (refresh_node now) tasks d)
        λ d1. if is_crawling d1.cfg.mode then each (clear_node now) clear d1 else quiet d1

  -- With no query under way, the buckets that have not changed for long are refreshed.
  unfoldable pub refresh : ℕ → (ℕ → Bytes) → Dht → Act
  unfolding refresh_node clear_node each fresh_plan
  refresh now random d =
      if Transaction.len d.trans == 0
      then planned now
          (fresh_plan d.routing now d.cfg.kbucket_expired_after d.cfg.refresh_node_num
            (is_crawling d.cfg.mode) random)
          d
      else quiet d

  unfoldable pub ping_node : ℕ → Dht → SocketAddr → Act
  unfolding ask get_by_index addr_string
  ping_node now d addr =
      if is_unknown (get_by_index d.trans (codes "ping") (addr_string addr))
      then some (ask_ping o now addr d)
      else quiet d

  abbrev pub ping_all : ℕ → Option (List SocketAddr) → Dht → Act
  ping_all now none d = none
  ping_all now (some addrs) d = each (ping_node now) addrs d

  unfoldable pub ping_expired : ℕ → Dht → Act
  unfolding ping_node each collect_expired_nodes
  ping_expired now d = ping_all now (collect_expired_nodes d.routing now d.cfg.node_expired_after) d

  unfoldable pub tick_run : ℕ → (ℕ → Bytes) → (Bytes → List SocketAddr) → Dht → Act
  unfolding join timeouts give_up_run refresh clean
  tick_run now random lookup_host d =
      if Table.len d.routing == 0
      then join now lookup_host d
      else and_then (timeouts now (give_up_run now) d)
          λ d1. and_then (refresh now random d1) λ d2. quiet (clean now d2)

  unfoldable pub tick_start : ℕ → (ℕ → Bytes) → (Bytes → List SocketAddr) → Dht → Act
  unfolding join timeouts give_up_start refresh ping_expired clean prune_table
  tick_start now random lookup_host d =
      if Table.len d.routing == 0
      then join now lookup_host d
      else and_then (timeouts now (give_up_start now) d) λ d1.
        and_then (refresh now random d1)
          λ d2. and_then (ping_expired now d2) λ d3. quiet (prune_table now (clean now d3))
