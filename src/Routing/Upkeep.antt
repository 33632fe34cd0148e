-- ===== src/Routing/Upkeep.antt =====
-- Removals keep the shape of the tree, and reading its buckets never panics.
use dht_spider.Prelude.{
  ℕ, zero, suc, ◌+◌, ◌-◌, ◌/◌, ◌%◌, ◌<◌, ◌≤◌, ◌≡◌, refl, ap, ◌∙◌, Bool, true, false, none, some,
  List, [], ◌∷◌, ◌++◌, map, All, arith, Bytes, length, take, ltb, leb, ◌==◌, Bool-cases,
  Option-cases, inl, inr,
}
use dht_spider.Std.Map as Map
use dht_spider.Std.Map.{bytes_Eq}
use dht_spider.Std.Net.{SocketAddr}
use dht_spider.Std.Display.{addr_string}
use dht_spider.Types.{Node}
use dht_spider.Bitmap.Bits.{get_elem?-get_or}
use dht_spider.Bitmap.Laws.{IsBitmap}
use dht_spider.Routing.Bucket.{
  KBucketInner, replace, random_child_id, position, pop_back, sort_by_last_active,
}
use dht_spider.Routing.Tree.{Store, walk, bucket_of, modify, max_prefix}
use dht_spider.Routing.Table.{RoutingTable}
use dht_spider.Routing.Queries.{
  remove_from_buckets, remove_by_addr, remove_all, enforce_max, stale_keys, stale_addrs, prune,
  plan, fresh_plan, expired_of, collect_expired_nodes, values, is_empty, bucket_tasks,
}
use dht_spider.Routing.Shape.{IsCached, Extends, refl-Extends, IsTree-Extends, IsCached-Extends}
use dht_spider.Routing.Total.{IsShaped}

prefix-replace : (b : KBucketInner) (now : ℕ) (id : Bytes) → (replace b now id).prefix ≡ b.prefix
unfolding replace
prefix-replace b now id = elim (Option-cases (position id b.nodes)) [
  | inl e ↦ rw (e, replace) refl
  | inr (pos, e) ↦ elim (Option-cases (pop_back b.candidates)) [
    | inl f ↦ rw (e, replace, f) refl
    | inr (last, f) ↦ rw (e, replace, f) refl
  ]
]

modify-Extends :
    (h : ℕ) (f : KBucketInner → KBucketInner) (s : Store)
    → ((b : KBucketInner) → (f b).prefix ≡ b.prefix)
    → Extends s (modify h f s)
unfolding modify
modify-Extends h f [] k j b e = absurd (ground (arith, e))
modify-Extends zero f (x ∷ s) k zero b e =
    let here : x ≡ b = cc e in (f x, refl, k x ∙ ap (λ (c : KBucketInner). c.prefix) here)
modify-Extends zero f (x ∷ s) k (suc j) b e = (b, e, refl)
modify-Extends (suc h) f (x ∷ s) k zero b e = (b, e, refl)
modify-Extends (suc h) f (x ∷ s) k (suc j) b e = modify-Extends h f s k j b e

store-IsShaped :
    (t : RoutingTable) (s : Store) (nodes : List (Bytes × Node))
    → Extends t.store s
    → IsShaped t
    → IsShaped (record t { cached_nodes = nodes; store = s })
store-IsShaped t s nodes f h = record {
  tree = IsTree-Extends 0 t.store s t.root f h.tree;
  cached = IsCached-Extends t.store s t.cached_buckets f h.cached;
}

remove_from_buckets-IsShaped :
    (t : RoutingTable) (now : ℕ) (id : Bytes) → IsShaped t → IsShaped (remove_from_buckets t now id)
unfolding remove_from_buckets
remove_from_buckets-IsShaped t now id h =
    elim (Option-cases (bucket_of (walk max_prefix 0 id t.root))) [
      | inl e ↦ rw (e, remove_from_buckets) h
      | inr (handle, e) ↦
          rw (e, remove_from_buckets)
            (store-IsShaped t (modify handle (λ b. replace b now id) t.store) t.cached_nodes
              (modify-Extends handle (λ b. replace b now id) t.store (λ b. prefix-replace b now id))
              h)
    ]

pub remove_by_addr-IsShaped :
    (t : RoutingTable) (now : ℕ) (addr : Bytes) → IsShaped t → IsShaped (remove_by_addr t now addr)
unfolding remove_by_addr
remove_by_addr-IsShaped t now addr h = elim (Option-cases (Map.get addr t.cached_nodes)) [
  | inl e ↦ rw (e, remove_by_addr) h
  | inr (n, e) ↦
      let t' : RoutingTable = record t { cached_nodes = Map.remove addr t.cached_nodes } in
      rw (e, remove_by_addr)
        (remove_from_buckets-IsShaped t' now n.id
          (store-IsShaped t t.store (Map.remove addr t.cached_nodes) (refl-Extends t.store) h))
]

remove_all-IsShaped :
    (t : RoutingTable) (now : ℕ) (addrs : List Bytes)
    → IsShaped t
    → IsShaped (remove_all t now addrs)
unfolding remove_all
remove_all-IsShaped t now [] h = h
remove_all-IsShaped t now (a ∷ addrs) h =
    remove_all-IsShaped (remove_by_addr t now a) now addrs (remove_by_addr-IsShaped t now a h)

pub prune-IsShaped :
    (t : RoutingTable) (now node_expired_after max_nodes : ℕ)
    → IsShaped t
    → IsShaped (prune t now node_expired_after max_nodes)
unfolding prune enforce_max
prune-IsShaped t now node_expired_after max_nodes h =
    let stale = stale_keys now node_expired_after t.cached_nodes in
    let t1 = remove_all t now stale in
    let h1 = remove_all-IsShaped t now stale h in
    elim (Bool-cases (ltb max_nodes (length t1.cached_nodes))) [
      | inl over ↦
          let oldest =
            take (length t1.cached_nodes - max_nodes)
              (sort_by_last_active (values t1.cached_nodes)) in
          rw over (remove_all-IsShaped t1 now (map (λ (n : Node). addr_string n.addr) oldest) h1)
      | inr within ↦ rw within h1
    ]

-- Reading the buckets.
expired_of-total :
    (s : Store) (now expired : ℕ) (hs : List ℕ)
    → All (IsCached s) hs
    → (addrs : List SocketAddr) × (expired_of s now expired hs ≡ some addrs)
unfolding expired_of
expired_of-total s now expired [] h = ([], refl)
expired_of-total s now expired (x ∷ hs) ((n, le, (b, e, size, bitmap)), h) =
    let (rest, f) = expired_of-total s now expired hs h in
    (stale_addrs now expired b.nodes ++ rest, rw (e, f) refl)

pub collect_expired_nodes-total :
    (t : RoutingTable) (now expired : ℕ)
    → IsShaped t
    → (addrs : List SocketAddr) × (collect_expired_nodes t now expired ≡ some addrs)
unfolding collect_expired_nodes
collect_expired_nodes-total t now expired h =
    expired_of-total t.store now expired t.cached_buckets h.cached

random_child_id-total :
    (b : KBucketInner) (random : Bytes)
    → IsBitmap b.prefix
    → b.prefix.size ≤ max_prefix
    → 0 < length random
    → (id : Bytes) × (random_child_id b random ≡ some id)
unfolding random_child_id
random_child_id-total b random h few fresh =
    let full = b.prefix.size / 8 in
    let inside : leb full (length b.prefix.bytes) ≡ true = ground (arith, h.byte_length) in
    let short : ltb 20 full ≡ false = ground arith in
    elim (Bool-cases (b.prefix.size % 8 == 0)) [
      | inl whole ↦ made λ e. ground (arith, rw (inside, short, whole) at e)
      | inr cut ↦
          let below : (full == 20) ≡ false = ground arith in
          let byte = get_elem?-get_or b.prefix.bytes full (ground (arith, h.byte_length, cut)) in
          let first = get_elem?-get_or random 0 fresh in
          made λ e. ground (arith, rw (inside, short, cut, byte, first, below) at e)
    ]
  where
    made :
        (random_child_id b random ≡ none → ⊥) → (id : Bytes) × (random_child_id b random ≡ some id)
    made k = elim (Option-cases (random_child_id b random)) [ inl e ↦ absurd (k e) | inr e ↦ e ]

plan-total :
    (s : Store) (now expired num : ℕ) (crawls : Bool) (random : ℕ → Bytes) (hs : List ℕ)
    → ((i : ℕ) → 0 < length (random i))
    → All (IsCached s) hs
    → (p : List (SocketAddr × Bytes) × List Bytes) × (plan s now expired num crawls random hs
        ≡ some p)
unfolding plan
plan-total s now expired num crawls random [] fresh h = (([], []), refl)
plan-total s now expired num crawls random (x ∷ hs) fresh ((n, le, (b, e, size, bitmap)), h) =
    let (p, skipped) = plan-total s now expired num crawls random hs fresh h in
    let ((tasks, clear), rest) =
      plan-total s now expired num crawls (λ i. random (i + 1)) hs (λ i. fresh (i + 1)) h in
    let (target, found) =
      random_child_id-total b (random 0) bitmap (omega (arith, le, size)) (fresh 0) in
    elim (Bool-cases (is_empty b.nodes)) [
      | inl empty ↦ (p, rw (e, empty) skipped)
      | inr some_nodes ↦ elim (Bool-cases (ltb (now - b.last_changed) expired)) [
        | inl early ↦ (p, rw (e, some_nodes, early) skipped)
        | inr due ↦
            let (tasks', clear') = bucket_tasks target crawls (take num b.nodes) in
            ((tasks' ++ tasks, clear' ++ clear), rw (e, some_nodes, due, found, rest) refl)
      ]
    ]

pub fresh_plan-total :
    (t : RoutingTable) (now expired num : ℕ) (crawls : Bool) (random : ℕ → Bytes)
    → ((i : ℕ) → 0 < length (random i))
    → IsShaped t
    → (p : List (SocketAddr × Bytes) × List Bytes) × (fresh_plan t now expired num crawls random
        ≡ some p)
unfolding fresh_plan
fresh_plan-total t now expired num crawls random fresh h =
    plan-total t.store now expired num crawls random t.cached_buckets fresh h.cached
