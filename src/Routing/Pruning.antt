-- ===== src/Routing/Pruning.antt =====
-- What `prune` leaves in the table of nodes by address.
use dht_spider.Prelude.{
  ℕ, suc, ◌-◌, ◌≤◌, ◌≡◌, refl, sym, ap, ◌∙◌, true, false, some, List, [], ◌∷◌, map, arith, Bytes,
  All, length, length-take, take, ltb, Bool-cases, inl, inr,
}
use dht_spider.Std.Order.{bytes_eq}
use dht_spider.Std.Map as Map
use dht_spider.Std.Map.{
  length-remove-le, remove-IsMap, bytes_Eq, beq_false_sym, IsMap, bytes_eq_refl,
}
use dht_spider.Std.Removal.{member, get-remove_each, length-remove_each}
use dht_spider.Std.Sort.{sort_by, sort_by-All, length-sort_by}
use dht_spider.Types.{Node}
use dht_spider.Routing.Bucket.{no_later, sort_by_last_active}
use dht_spider.Routing.Table.{RoutingTable, len}
use dht_spider.Routing.Queries.{
  remove_by_addr, values, remove_all, is_stale, stale_keys, enforce_max, prune,
}
use dht_spider.Routing.Cache.{
  cached-remove_by_addr, remove-IsKeyed, remove-All, key, IsKeyed, IsCache, stale_entry, Apart,
  cached-remove_all, member-stale_keys, remove_each-IsCache, sort_by-Apart, take-All, take-Apart,
  map-All, map-AreApart,
}

absent-values :
    (addr : Bytes) (m : List (Bytes × Node))
    → IsKeyed m
    → Map.contains_key addr m ≡ false
    → All (λ (x : Node). bytes_eq (key x) addr ≡ false) (values m)
unfolding Map.contains_key
absent-values addr [] h absent = tt
absent-values addr ((a, n) ∷ m) h absent = elim (Bool-cases (bytes_eq addr a)) [
  | inl e ↦ cc (rw e at absent)
  | inr e ↦ (rw (← h.0) (beq_false_sym addr a e), absent-values addr m h.1 (rw e at absent))
]

values-Apart : (m : List (Bytes × Node)) → IsKeyed m → IsMap m → Apart (values m)
values-Apart [] h k = tt
values-Apart ((a, n) ∷ m) h k = (rw (← h.0) (absent-values a m h.1 k.0), values-Apart m h.1 k.1)

present-values :
    (m whole : List (Bytes × Node))
    → IsKeyed m
    → ((k : Bytes) → Map.contains_key k m ≡ true → Map.contains_key k whole ≡ true)
    → All (λ (x : Node). Map.contains_key (key x) whole ≡ true) (values m)
unfolding Map.contains_key
present-values [] whole h inside = tt
present-values ((a, n) ∷ m) whole h inside = (
  rw (← h.0) (inside a (rw (bytes_eq_refl a) refl)),
  present-values m whole h.1 (λ k e. inside k (ground arith)),
)

length-values : (m : List (Bytes × Node)) → length (values m) ≡ length m
length-values [] = refl
length-values ((a, n) ∷ m) = ap suc (length-values m)

length-map_key : (ns : List Node) → length (map key ns) ≡ length ns
length-map_key [] = refl
length-map_key (n ∷ ns) = ap suc (length-map_key ns)

-- The oldest nodes go, as many as are over the bound.
length-enforce_max :
    (t : RoutingTable) (now max_nodes : ℕ)
    → IsCache t.cached_nodes
    → length (enforce_max t now max_nodes).cached_nodes ≤ max_nodes
unfolding enforce_max sort_by_last_active
length-enforce_max t now max_nodes h = elim (Bool-cases (ltb max_nodes (length t.cached_nodes))) [
  | inl over ↦
      let m = t.cached_nodes in
      let i = length m - max_nodes in
      let sorted = sort_by no_later (values m) in
      let oldest = take i sorted in
      let apart = take-Apart i sorted (sort_by-Apart (values m) (values-Apart m h.keyed h.keys)) in
      let present =
        take-All _ i sorted
          (sort_by-All no_later _ (values m) (present-values m m h.keyed (λ k e. e))) in
      let shorter =
        length-remove_each (map key oldest) m (map-AreApart oldest apart)
          (map-All _ oldest present) in
      rw (over, cached-remove_all t now (map key oldest))
        (ground (
          arith,
          shorter,
          length-map_key oldest,
          length-take i sorted,
          length-sort_by no_later (values m),
          length-values m,
        ))
  | inr within ↦ rw within (ground arith)
]

get-remove_all :
    (t : RoutingTable) (now : ℕ) (addrs : List Bytes) (addr : Bytes) (n : Node)
    → Map.get addr (remove_all t now addrs).cached_nodes ≡ some n
    → (member addr addrs ≡ false) × (Map.get addr t.cached_nodes ≡ some n)
get-remove_all t now addrs addr n found =
    let e = get-remove_each addr addrs t.cached_nodes in
    let e' = rw (cached-remove_all t now addrs, e) at found in
    elim (Bool-cases (member addr addrs)) [
      | inl gone ↦ cc (rw gone at e')
      | inr there ↦ (there, rw there at e')
    ]

-- After pruning, the table holds at most the number of nodes asked for.
pub len-prune :
    (t : RoutingTable) (now node_expired_after max_nodes : ℕ)
    → IsCache t.cached_nodes
    → len (prune t now node_expired_after max_nodes) ≤ max_nodes
unfolding prune
len-prune t now node_expired_after max_nodes h =
    let stale = stale_keys now node_expired_after t.cached_nodes in
    length-enforce_max (remove_all t now stale) now max_nodes
      (rw (cached-remove_all t now stale) (remove_each-IsCache stale t.cached_nodes h))

get-enforce_max :
    (t : RoutingTable) (now max_nodes : ℕ) (addr : Bytes) (n : Node)
    → Map.get addr (enforce_max t now max_nodes).cached_nodes ≡ some n
    → Map.get addr t.cached_nodes ≡ some n
unfolding enforce_max
get-enforce_max t now max_nodes addr n found =
    elim (Bool-cases (ltb max_nodes (length t.cached_nodes))) [
      | inl over ↦
          let excess = length t.cached_nodes - max_nodes in
          let oldest = map key (take excess (sort_by_last_active (values t.cached_nodes))) in
          (get-remove_all t now oldest addr n (rw over at found)).1
      | inr within ↦ rw within at found
    ]

-- A node that is still there after pruning was there before, and is not stale.
pub get-prune :
    (t : RoutingTable) (now node_expired_after max_nodes : ℕ) (addr : Bytes) (n : Node)
    → IsCache t.cached_nodes
    → Map.get addr (prune t now node_expired_after max_nodes).cached_nodes ≡ some n
    → (Map.get addr t.cached_nodes ≡ some n) × (is_stale now node_expired_after n ≡ false)
unfolding prune
get-prune t now node_expired_after max_nodes addr n h found =
    let stale = stale_keys now node_expired_after t.cached_nodes in
    let kept = get-enforce_max (remove_all t now stale) now max_nodes addr n found in
    let (fresh, there) = get-remove_all t now stale addr n kept in
    let e : member addr stale ≡ stale_entry now node_expired_after (Map.get addr t.cached_nodes) =
      member-stale_keys now node_expired_after addr t.cached_nodes h.keys in
    (there, sym (rw there at e) ∙ fresh)

remove_all-IsCache :
    (t : RoutingTable) (now : ℕ) (addrs : List Bytes)
    → IsCache t.cached_nodes
    → IsCache (remove_all t now addrs).cached_nodes
remove_all-IsCache t now addrs h =
    rw (cached-remove_all t now addrs) (remove_each-IsCache addrs t.cached_nodes h)

-- Pruning leaves each node once, under its address.
pub prune-IsCache :
    (t : RoutingTable) (now node_expired_after max_nodes : ℕ)
    → IsCache t.cached_nodes
    → IsCache (prune t now node_expired_after max_nodes).cached_nodes
unfolding prune enforce_max
prune-IsCache t now node_expired_after max_nodes h =
    let t1 = remove_all t now (stale_keys now node_expired_after t.cached_nodes) in
    let h1 = remove_all-IsCache t now (stale_keys now node_expired_after t.cached_nodes) h in
    elim (Bool-cases (ltb max_nodes (length t1.cached_nodes))) [
      | inl over ↦
          let oldest =
            take (length t1.cached_nodes - max_nodes)
              (sort_by_last_active (values t1.cached_nodes)) in
          rw over (remove_all-IsCache t1 now (map key oldest) h1)
      | inr within ↦ rw within h1
    ]

-- Removing a node leaves the others, each once under its address.
pub remove_by_addr-IsCache :
    (t : RoutingTable) (now : ℕ) (addr : Bytes)
    → IsCache t.cached_nodes
    → IsCache (remove_by_addr t now addr).cached_nodes × (len (remove_by_addr t now addr) ≤ len t)
remove_by_addr-IsCache t now addr h =
    let shorter = length-remove-le addr t.cached_nodes in
    let e = cached-remove_by_addr t now addr in
    (
      rw e (record {
        keyed = remove-IsKeyed addr t.cached_nodes h.keyed;
        ids = remove-All addr t.cached_nodes h.ids;
        keys = remove-IsMap addr t.cached_nodes h.keys;
      }),
      omega (arith, ap length e, shorter),
    )
