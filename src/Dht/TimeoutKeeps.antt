-- ===== src/Dht/TimeoutKeeps.antt =====
-- Joining, retries and what is given up leave the node's tables well formed.
use dht_spider.Prelude.{ℕ, Option, none, some, List, [], ◌∷◌, Bytes, codes, Bool-cases, inl, inr}
use dht_spider.Std.Net.{SocketAddr}
use dht_spider.Std.Display.{ip_string, addr_string}
use dht_spider.Std.Order.{bytes_eq}
use dht_spider.Transaction.{Transaction, get_by_trans_id, scan_timeouts}
use dht_spider.Config.{Config}
use dht_spider.Dht.{Dht, Outside, Act, each, find_node_args}
use dht_spider.Dht.Tick.{
  query_timeout, find_self, join_parsed, join_host, join, retry_get_peers, retry_find_node, retry,
  blamed, blamed_or_dropped, give_up_run, give_up_start, timeouts,
}
use dht_spider.Dht.Acts.{Keeps, and_then-Keeps, each-Keeps}
use dht_spider.Dht.Invariant.{IsDht, ask-IsDht, finish-IsDht, retry-IsDht, ban-IsDht, remove-IsDht}

module _ (cfg : Config) where
  blamed-IsDht :
      (now : ℕ) (t : Option Transaction) (d : Dht) → IsDht cfg d → IsDht cfg (blamed now t d)
  blamed-IsDht now none d h = h
  blamed-IsDht now (some t) d h = ban-IsDht cfg d h now (ip_string t.addr.ip) (some t.addr.port)

  blamed_or_dropped-IsDht :
      (now : ℕ) (t : Option Transaction) (d : Dht)
      → IsDht cfg d
      → IsDht cfg (blamed_or_dropped now t d)
  blamed_or_dropped-IsDht now none d h = h
  blamed_or_dropped-IsDht now (some t) d h = elim (Bool-cases (bytes_eq t.qtype (codes "ping"))) [
    | inl ping ↦ rw ping (remove-IsDht cfg d h now (addr_string t.addr))
    | inr other ↦ rw other (ban-IsDht cfg d h now (ip_string t.addr.ip) (some t.addr.port))
  ]

  pub give_up_run-Keeps :
      (now : ℕ) (d : Dht) (tid : Bytes) → IsDht cfg d → Keeps (IsDht cfg) (give_up_run now d tid)
  unfolding give_up_run
  give_up_run-Keeps now d tid h =
      let t = get_by_trans_id d.trans tid in
      finish-IsDht cfg (blamed now t d) (blamed-IsDht now t d h) tid

  pub give_up_start-Keeps :
      (now : ℕ) (d : Dht) (tid : Bytes) → IsDht cfg d → Keeps (IsDht cfg) (give_up_start now d tid)
  unfolding give_up_start
  give_up_start-Keeps now d tid h =
      let t = get_by_trans_id d.trans tid in
      finish-IsDht cfg (blamed_or_dropped now t d) (blamed_or_dropped-IsDht now t d h) tid

  module _ (o : Outside) (now : ℕ) where
    find_self-Keeps :
        (d : Dht) (addr : SocketAddr) → IsDht cfg d → Keeps (IsDht cfg) (find_self o now d addr)
    unfolding find_self
    find_self-Keeps d addr h = ask-IsDht cfg d h o now addr _ _ _ _ (find_node_args o d d.self_id)

    join_parsed-Keeps :
        (a : Option SocketAddr) (d : Dht) → IsDht cfg d → Keeps (IsDht cfg) (join_parsed o now a d)
    join_parsed-Keeps none d h = h
    join_parsed-Keeps (some addr) d h = find_self-Keeps d addr h

    join_host-Keeps :
        (host : Bytes) (addrs : List SocketAddr) (d : Dht)
        → IsDht cfg d
        → Keeps (IsDht cfg) (join_host o now host addrs d)
    join_host-Keeps host [] d h = join_parsed-Keeps (o.parse_addr host) d h
    join_host-Keeps host (addr ∷ addrs) d h =
        each-Keeps (IsDht cfg) (find_self o now) (addr ∷ addrs) find_self-Keeps d h

    pub join-Keeps :
        (lookup_host : Bytes → List SocketAddr) (d : Dht)
        → IsDht cfg d
        → Keeps (IsDht cfg) (join o now lookup_host d)
    unfolding join
    join-Keeps lookup_host d h =
        each-Keeps (IsDht cfg)
          (λ (d' : Dht) (host : Bytes). join_host o now host (lookup_host host) d')
          d.cfg.prime_nodes (λ d' host. join_host-Keeps host (lookup_host host) d') d h

    retry_get_peers-Keeps :
        (t : Transaction) (ih : Option Bytes) (d : Dht)
        → IsDht cfg d
        → Keeps (IsDht cfg) (retry_get_peers o now t ih d)
    retry_get_peers-Keeps t none d h = h
    retry_get_peers-Keeps t (some ih) d h = retry-IsDht cfg d h now t.trans_id_bytes

    retry_find_node-Keeps :
        (t : Transaction) (target : Option Bytes) (d : Dht)
        → IsDht cfg d
        → Keeps (IsDht cfg) (retry_find_node o now t target d)
    retry_find_node-Keeps t none d h = h
    retry_find_node-Keeps t (some target) d h = retry-IsDht cfg d h now t.trans_id_bytes

    retry-Keeps : (d : Dht) (t : Transaction) → IsDht cfg d → Keeps (IsDht cfg) (retry o now d t)
    unfolding retry
    retry-Keeps d t h = elim (Bool-cases (bytes_eq t.qtype (codes "get_peers"))) [
      | inl e ↦ rw e (retry_get_peers-Keeps t t.info_hash d h)
      | inr e1 ↦ elim (Bool-cases (bytes_eq t.qtype (codes "find_node"))) [
        | inl e ↦ rw (e1, e) (retry_find_node-Keeps t t.target d h)
        | inr e2 ↦ rw (e1, e2) h
      ]
    ]

    pub timeouts-Keeps :
        (give_up : Dht → Bytes → Act)
        → ((d : Dht) (tid : Bytes) → IsDht cfg d → Keeps (IsDht cfg) (give_up d tid))
        → (d : Dht) → IsDht cfg d
        → Keeps (IsDht cfg) (timeouts o now give_up d)
    unfolding timeouts
    timeouts-Keeps give_up k d h =
        let (to_retry, to_remove) = scan_timeouts d.trans now query_timeout d.cfg.try_times in
        and_then-Keeps (IsDht cfg) (each (retry o now) to_retry d) (each give_up to_remove)
          (each-Keeps (IsDht cfg) (retry o now) to_retry retry-Keeps d h)
          (each-Keeps (IsDht cfg) give_up to_remove k)
