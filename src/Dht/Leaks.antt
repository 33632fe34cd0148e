-- ===== src/Dht/Leaks.antt =====
-- A ping stays in the table of transactions: no timeout ends it.
use dht_spider.Prelude.{
  ℕ, ◌<◌, ◌≡◌, refl, sym, ◌∙◌, false, Option, none, some, List, [], ◌∷◌, All, All-weaken, arith,
  Bytes, codes, length, leb, ◌==◌, Bool-cases, Option-cases, inl, inr,
}
use dht_spider.Std.Order.{bytes_eq, bytes_eq_iff}
use dht_spider.Std.Map as Map
use dht_spider.Std.Map.{bytes_Eq, get-insert_ne, get-remove_ne}
use dht_spider.Transaction.{
  Transaction, TransactionManager, get_by_trans_id, finish_by_trans_id, scan_timeouts, mark_retry,
  retried,
}
use dht_spider.Transaction.Keyed.{IsTable, scan-All}
use dht_spider.Transaction.Timeouts.{listed, listed-scan_timeouts}
use dht_spider.Dht.{Dht, Outside, quiet, each}
use dht_spider.Dht.Tick.{
  query_timeout, retry_get_peers, retry_find_node, retry, blamed_or_dropped, give_up_start,
  timeouts, refresh,
}
use dht_spider.Dht.Acts.{Says, Keeps, and_then-Keeps, each-KeepsAll, Says-Keeps}

get-mark_retry :
    (m : TransactionManager) (now : ℕ) (k tid : Bytes)
    → bytes_eq tid k ≡ false
    → Map.get tid (mark_retry m now k).map ≡ Map.get tid m.map
unfolding mark_retry
get-mark_retry m now k tid other = elim (Option-cases (Map.get k m.map)) [
  | inl e ↦ rw (e, mark_retry) refl
  | inr (u, e) ↦ rw (e, mark_retry) (get-insert_ne k tid (retried now u) m.map other)
]

listed-All :
    (tid : Bytes) (ts : List Bytes)
    → listed tid ts ≡ false
    → All (λ (x : Bytes). bytes_eq tid x ≡ false) ts
unfolding listed
listed-All tid [] h = tt
listed-All tid (x ∷ ts) h = elim (Bool-cases (bytes_eq tid x)) [
  | inl same ↦ absurd (ground (arith, same, h))
  | inr other ↦ (other, listed-All tid ts (rw other at h))
]

get-occupied :
    (tid : Bytes) (t : Transaction) (m : List (Bytes × Transaction))
    → Map.get tid m ≡ some t
    → (length m == 0) ≡ false
unfolding Map.get
get-occupied tid t [] h = absurd (ground (arith, h))
get-occupied tid t (x ∷ m) h = ground arith

blamed_or_dropped-trans :
    (now : ℕ) (u : Option Transaction) (d : Dht) → (blamed_or_dropped now u d).trans ≡ d.trans
blamed_or_dropped-trans now none d = refl
blamed_or_dropped-trans now (some u) d = elim (Bool-cases (bytes_eq u.qtype (codes "ping"))) [
  | inl ping ↦ rw ping refl
  | inr other ↦ rw other refl
]

-- One transaction that is neither a search for peers nor one for nodes.
module _ (o : Outside) (now : ℕ) (tid : Bytes) (t : Transaction) where
  abbrev Holds : Dht → Type 0
  Holds d = Map.get tid d.trans.map ≡ some t

  retry_get_peers-Holds :
      (u : Transaction) (ih : Option Bytes) (d : Dht)
      → bytes_eq tid u.trans_id_bytes ≡ false
      → Holds d
      → Keeps Holds (retry_get_peers o now u ih d)
  retry_get_peers-Holds u none d other h = h
  retry_get_peers-Holds u (some ih) d other h =
      get-mark_retry d.trans now u.trans_id_bytes tid other ∙ h

  retry_find_node-Holds :
      (u : Transaction) (target : Option Bytes) (d : Dht)
      → bytes_eq tid u.trans_id_bytes ≡ false
      → Holds d
      → Keeps Holds (retry_find_node o now u target d)
  retry_find_node-Holds u none d other h = h
  retry_find_node-Holds u (some target) d other h =
      get-mark_retry d.trans now u.trans_id_bytes tid other ∙ h

  module _ (no_peers : bytes_eq t.qtype (codes "get_peers") ≡ false)
      (no_nodes : bytes_eq t.qtype (codes "find_node") ≡ false) where
    retry-Holds :
        (u : Transaction)
        → (u.trans_id_bytes ≡ tid → u ≡ t)
        → (d : Dht) → Holds d
        → Keeps Holds (retry o now d u)
    unfolding retry
    retry-Holds u same d h = elim (Bool-cases (bytes_eq tid u.trans_id_bytes)) [
      | inl e ↦
          let it = same (sym ((bytes_eq_iff tid u.trans_id_bytes).0 e)) in
          rw (it, no_peers, no_nodes) h
      | inr other ↦ elim (Bool-cases (bytes_eq u.qtype (codes "get_peers"))) [
        | inl e ↦ rw e (retry_get_peers-Holds u u.info_hash d other h)
        | inr e1 ↦ elim (Bool-cases (bytes_eq u.qtype (codes "find_node"))) [
          | inl e ↦ rw (e1, e) (retry_find_node-Holds u u.target d other h)
          | inr e2 ↦ rw (e1, e2) h
        ]
      ]
    ]

  give_up_start-Holds :
      (k : Bytes)
      → bytes_eq tid k ≡ false
      → (d : Dht) → Holds d
      → Keeps Holds (give_up_start now d k)
  unfolding give_up_start finish_by_trans_id
  give_up_start-Holds k other d h =
      let u = get_by_trans_id d.trans k in
      get-remove_ne k tid (blamed_or_dropped now u d).trans.map other
      ∙ rw (blamed_or_dropped-trans now u d) h

-- A transaction of a kind other than `get_peers` and `find_node`, as a ping, that was not sent as
-- often as `try_times` is still in the table, unchanged, after the timeouts of any tick of `start`
-- that does not panic, however long it has waited; and then the refreshing of that tick does
-- nothing.
pub refresh-timeouts :
    (o : Outside) (d : Dht) (now later : ℕ) (random : ℕ → Bytes) (tid : Bytes) (t : Transaction)
    → IsTable d.trans.map
    → get_by_trans_id d.trans tid ≡ some t
    → bytes_eq t.qtype (codes "get_peers") ≡ false
    → bytes_eq t.qtype (codes "find_node") ≡ false
    → t.retries < d.cfg.try_times
    → Says
        (λ d' out. (get_by_trans_id d'.trans tid ≡ some t) × (refresh o later random d' ≡ quiet d'))
        (timeouts o now (give_up_start now) d)
unfolding timeouts get_by_trans_id refresh scan_timeouts
refresh-timeouts o d now later random tid t table found no_peers no_nodes few =
    let max = d.cfg.try_times in
    let to_retry = (scan_timeouts d.trans now query_timeout max).0 in
    let to_remove = (scan_timeouts d.trans now query_timeout max).1 in
    let left : leb max t.retries ≡ false = ground (arith, few) in
    let kept_on : listed tid to_remove ≡ false =
      listed-scan_timeouts d.trans now query_timeout max tid table.keys
      ∙ rw (found, left) (ground arith) in
    let unchanged =
      All-weaken _
        (λ (u : Transaction).
          (d : Dht) → Holds o now tid t d → Keeps (Holds o now tid t) (retry o now d u))
        to_retry (λ u f. retry-Holds o now tid t no_peers no_nodes u λ e. cc (f e, found))
        (scan-All now query_timeout max tid d.trans.map table) in
    let unremoved =
      All-weaken _
        (λ (k : Bytes).
          (d : Dht) → Holds o now tid t d → Keeps (Holds o now tid t) (give_up_start now d k))
        to_remove (give_up_start-Holds o now tid t) (listed-All tid to_remove kept_on) in
    Says-Keeps (Holds o now tid t) _ (timeouts o now (give_up_start now) d)
      (λ d' out h. (h, rw (get-occupied tid t d'.trans.map h) refl))
      (and_then-Keeps (Holds o now tid t) (each (retry o now) to_retry d)
        (each (give_up_start now) to_remove)
        (each-KeepsAll (Holds o now tid t) (retry o now) to_retry unchanged d found)
        (each-KeepsAll (Holds o now tid t) (give_up_start now) to_remove unremoved))
