-- ===== src/Dht/TickKeeps.antt =====
-- A tick of the clock leaves the node's tables well formed.
use dht_spider.Prelude.{
  length, ◌≡◌, arith, ℕ, ◌≤◌, subst, none, some, List, [], ◌∷◌, Bytes, codes, ◌==◌, if◌then◌else◌,
  Bool-cases, inl, inr,
}
use dht_spider.Std.Net.{SocketAddr}
use dht_spider.Std.Display.{addr_string}
use dht_spider.BlackList as BlackList
use dht_spider.BlackList.Laws as Blocks
use dht_spider.Token as Token
use dht_spider.Transaction as Transaction
use dht_spider.Transaction.{Transaction, get_by_trans_id, get_by_index, scan_timeouts}
use dht_spider.Routing.Table as Table
use dht_spider.Routing.Queries.{prune}
use dht_spider.Routing.Upkeep.{prune-IsShaped, fresh_plan-total, collect_expired_nodes-total}
use dht_spider.Routing.Pruning.{prune-IsCache, len-prune}
use dht_spider.Bencode.Value.{bytes, dict_of}
use dht_spider.Config.{Config}
use dht_spider.Dht.{Dht, Outside, quiet, each, select_id_for, find_node_args}
use dht_spider.Dht.Response.{is_unknown}
use dht_spider.Dht.Tick.{
  give_up_run, give_up_start, timeouts, is_crawling, refresh_node, clear_node, planned, refresh,
  ping_node, ping_all, ping_expired, clean, prune_table, tick_run, tick_start,
}
use dht_spider.Dht.Acts.{Keeps, and_then-Keeps, each-Keeps}
use dht_spider.Dht.Invariant.{
  IsDht, with_tokens, with_blacklist, with_routing, ask-IsDht, remove-IsDht,
}
use dht_spider.Dht.TimeoutKeeps.{join-Keeps, give_up_run-Keeps, give_up_start-Keeps, timeouts-Keeps}

-- What a random generator fills an id with.
abbrev pub IsDrawn : (ℕ → Bytes) → Type 0
IsDrawn random = (i : ℕ) → length (random i) ≡ 20

module _ (cfg : Config) where
  clear_node-Keeps :
      (now : ℕ) (d : Dht) (addr : Bytes) → IsDht cfg d → Keeps (IsDht cfg) (clear_node now d addr)
  unfolding clear_node
  clear_node-Keeps now d addr h = remove-IsDht cfg d h now addr

  clean-IsDht : (now : ℕ) (d : Dht) → IsDht cfg d → IsDht cfg (clean now d)
  unfolding clean
  clean-IsDht now d h =
      let d' : Dht = record d { tokens = Token.clear_expired d.tokens now } in
      with_blacklist cfg d' (with_tokens cfg d h (Token.clear_expired d.tokens now))
        (BlackList.clear_expired d.blacklist now)
        (Blocks.clear_expired-IsBounded d.blacklist now h.blacklist)
        (Blocks.max_size-clear_expired d.blacklist now)

  prune_table-IsDht : (now : ℕ) (d : Dht) → IsDht cfg d → IsDht cfg (prune_table now d)
  unfolding prune_table
  prune_table-IsDht now d h =
      let e = h.same_config in
      let within = len-prune d.routing now d.cfg.node_expired_after d.cfg.max_nodes h.cache in
      with_routing cfg d h (prune d.routing now d.cfg.node_expired_after d.cfg.max_nodes)
        (prune-IsCache d.routing now d.cfg.node_expired_after d.cfg.max_nodes h.cache)
        (prune-IsShaped d.routing now d.cfg.node_expired_after d.cfg.max_nodes h.shape)
        (subst
          (λ (c : Config).
            Table.len (prune d.routing now d.cfg.node_expired_after d.cfg.max_nodes) ≤ c.max_nodes)
          e within)

  module _ (o : Outside) (now : ℕ) where
    refresh_node-Keeps :
        (d : Dht) (p : SocketAddr × Bytes)
        → IsDht cfg d
        → Keeps (IsDht cfg) (refresh_node o now d p)
    unfolding refresh_node
    refresh_node-Keeps d (addr, target) h =
        ask-IsDht cfg d h o now addr _ _ _ _ (find_node_args o d target)

    planned-Keeps :
        (tasks : List (SocketAddr × Bytes)) (clear : List Bytes) (d : Dht)
        → IsDht cfg d
        → Keeps (IsDht cfg) (planned o now (some (tasks, clear)) d)
    planned-Keeps tasks clear d h =
        let rest = λ (d1 : Dht).
          if is_crawling d1.cfg.mode then each (clear_node now) clear d1 else quiet d1 in
        and_then-Keeps (IsDht cfg) (each (refresh_node o now) tasks d) rest
          (each-Keeps (IsDht cfg) (refresh_node o now) tasks refresh_node-Keeps d h)
          λ d1 h1. elim (Bool-cases (is_crawling d1.cfg.mode)) [
            | inl crawls ↦
                rw crawls
                  (each-Keeps (IsDht cfg) (clear_node now) clear (clear_node-Keeps now) d1 h1)
            | inr stays ↦ rw stays h1
          ]

    refresh-Keeps :
        (random : ℕ → Bytes) (d : Dht)
        → IsDrawn random
        → IsDht cfg d
        → Keeps (IsDht cfg) (refresh o now random d)
    unfolding refresh
    refresh-Keeps random d drawn h =
        let ((tasks, clear), p) =
          fresh_plan-total d.routing now d.cfg.kbucket_expired_after d.cfg.refresh_node_num
            (is_crawling d.cfg.mode) random (λ i. omega (arith, drawn i)) h.shape in
        elim (Bool-cases (Transaction.len d.trans == 0)) [
          | inl idle ↦ rw (idle, p) (planned-Keeps tasks clear d h)
          | inr busy ↦ rw busy h
        ]

    ping_node-Keeps :
        (d : Dht) (addr : SocketAddr) → IsDht cfg d → Keeps (IsDht cfg) (ping_node o now d addr)
    unfolding ping_node
    ping_node-Keeps d addr h =
        elim (Bool-cases (is_unknown (get_by_index d.trans (codes "ping") (addr_string addr)))) [
          | inl new ↦ rw new (
              ask-IsDht cfg d h o now addr _ _ _ _
                (dict_of ((codes "id", bytes (select_id_for d none)) ∷ [])))
          | inr old ↦ rw old h
        ]

    ping_all-Keeps :
        (addrs : List SocketAddr) (d : Dht)
        → IsDht cfg d
        → Keeps (IsDht cfg) (ping_all o now (some addrs) d)
    ping_all-Keeps addrs d h = each-Keeps (IsDht cfg) (ping_node o now) addrs ping_node-Keeps d h

    ping_expired-Keeps : (d : Dht) → IsDht cfg d → Keeps (IsDht cfg) (ping_expired o now d)
    unfolding ping_expired
    ping_expired-Keeps d h =
        let (addrs, e) =
          collect_expired_nodes-total d.routing now d.cfg.node_expired_after h.shape in
        rw e (ping_all-Keeps addrs d h)

    pub tick_run-Keeps :
        (random : ℕ → Bytes) (lookup_host : Bytes → List SocketAddr) (d : Dht)
        → IsDrawn random
        → IsDht cfg d
        → Keeps (IsDht cfg) (tick_run o now random lookup_host d)
    unfolding tick_run
    tick_run-Keeps random lookup_host d drawn h = elim (Bool-cases (Table.len d.routing == 0)) [
      | inl empty ↦ rw empty (join-Keeps cfg o now lookup_host d h)
      | inr known ↦ rw known (
          and_then-Keeps (IsDht cfg) (timeouts o now (give_up_run now) d) _
            (timeouts-Keeps cfg o now (give_up_run now) (give_up_run-Keeps cfg now) d h)
            λ d1 h1.
              and_then-Keeps (IsDht cfg) (refresh o now random d1) _
                (refresh-Keeps random d1 drawn h1) λ d2 h2. clean-IsDht now d2 h2)
    ]

    pub tick_start-Keeps :
        (random : ℕ → Bytes) (lookup_host : Bytes → List SocketAddr) (d : Dht)
        → IsDrawn random
        → IsDht cfg d
        → Keeps (IsDht cfg) (tick_start o now random lookup_host d)
    unfolding tick_start
    tick_start-Keeps random lookup_host d drawn h = elim (Bool-cases (Table.len d.routing == 0)) [
      | inl empty ↦ rw empty (join-Keeps cfg o now lookup_host d h)
      | inr known ↦ rw known (
          and_then-Keeps (IsDht cfg) (timeouts o now (give_up_start now) d) _
            (timeouts-Keeps cfg o now (give_up_start now) (give_up_start-Keeps cfg now) d h)
            λ d1 h1.
              and_then-Keeps (IsDht cfg) (refresh o now random d1) _
                (refresh-Keeps random d1 drawn h1)
                λ d2 h2.
                  and_then-Keeps (IsDht cfg) (ping_expired o now d2) _ (ping_expired-Keeps d2 h2)
                    λ d3 h3. prune_table-IsDht now (clean now d3) (clean-IsDht now d3 h3))
    ]
