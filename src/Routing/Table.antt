-- ===== src/Routing/Table.antt =====
-- `RoutingTable` of src/routing.rs and its operations. `none` stands for a panic.
use dht_spider.Prelude as Prelude
use dht_spider.Prelude.{
  ℕ, zero, suc, ◌+◌, ◌-◌, ◌*◌, Bool, true, false, ◌||◌, Option, none, some, List, [], ◌∷◌, ◌++◌,
  map, Bytes, length, get_elem?, take, ltb, leb, ◌==◌, if◌then◌else◌, Ordering,
}
use dht_spider.Std.Map as Map
use dht_spider.Std.Map.{bytes_Eq}
use dht_spider.Std.Display.{addr_string}
use dht_spider.Types.{Node}
use dht_spider.Bitmap as Bitmap
use dht_spider.Bitmap.{from_bytes, xor, compare_prefix, matches_id_prefix, ◌>>=◌}
use dht_spider.Routing.Bucket as Bucket
use dht_spider.Routing.Bucket.{
  KBucketInner, add_candidate, replace, random_child_id, position, sort_by_last_active,
}
use dht_spider.Routing.Tree.{
  RoutingNode, routing_node, Child, no_child, child_at, Store, leaf, child, set_child, bucket_of,
  bit_of, split, max_prefix,
}

pub record RoutingTable : Type 0 where
  pub k : ℕ
  pub cached_nodes : List (Bytes × Node)
  pub cached_buckets : List ℕ
  pub root : RoutingNode
  pub store : Store

unfoldable pub new : ℕ → ℕ → RoutingTable
unfolding Bitmap.new Bucket.new
new now k = record {
  k = k;
  cached_nodes = [];
  cached_buckets = 0 ∷ [];
  root = leaf 0;
  store = Bucket.new now (Bitmap.new 0) ∷ [];
}

abbrev pub len : RoutingTable → ℕ
len t = length t.cached_nodes

-- `cached_buckets.iter().any(|b| std::ptr::eq(..))`
unfoldable pub is_cached : ℕ → List ℕ → Bool
is_cached handle [] = false
is_cached handle (h ∷ hs) = h == handle || is_cached handle hs

-- What `insert` does at a leaf that takes the node.
unfoldable pub accept : RoutingTable → ℕ → ℕ → KBucketInner → Node → Bool × RoutingTable
unfolding is_cached Bucket.insert Map.insert
accept t now handle bucket node =
    let (is_new, changed) = Bucket.insert bucket now node t.k in
    (
      is_new,
      record t {
        cached_nodes = Map.insert (addr_string node.addr) node t.cached_nodes;
        cached_buckets =
            if is_cached handle t.cached_buckets
            then t.cached_buckets
            else t.cached_buckets ++ handle ∷ [];
        store = Prelude.set t.store handle changed;
      },
    )

abbrev pub bucket_handles : Child → List ℕ
bucket_handles no_child = []
bucket_handles (child_at node) = elim (bucket_of node) [ none ↦ [] | some handle ↦ handle ∷ [] ]

-- The children's buckets join the cached ones.
abbrev pub cache_children : RoutingNode → RoutingTable → RoutingTable
cache_children (routing_node left right bucket) t = record t {
  cached_buckets = t.cached_buckets ++ (bucket_handles left ++ bucket_handles right);
}

abbrev pub is_found : Option ℕ → Bool
is_found none = false
is_found (some pos) = true

-- The result of the loop of `insert` below a node of the tree: what `insert` returns, the node with
-- what changed below it, and the table, whose root is not touched there.
abbrev pub Placed : Type 0
Placed = Option (Bool × RoutingNode × RoutingTable)

abbrev pub put_child : RoutingNode → ℕ → Placed → Placed
put_child cur bit none = none
put_child cur bit (some (r, next, t)) = some (r, set_child cur bit next, t)

-- On into the child for the bit, which is there after a split.
abbrev pub into_half : RoutingNode → ℕ → Child → (RoutingNode → Placed) → Placed
into_half parent bit no_child go = none
into_half parent bit (child_at next) go = put_child parent bit (go next)

abbrev pub after_split :
    ℕ → RoutingTable → (RoutingNode → RoutingTable → Placed) → Option (RoutingNode × Store) → Placed
after_split bit t go none = none
after_split bit t go (some (parent, store)) =
    let t' = cache_children parent (record t { store = store }) in
    into_half parent bit (child parent bit) (λ next. go next t')

-- What becomes of a node for which the bucket has no room: in the bucket's range, the bucket is
-- split; elsewhere the node is kept as a candidate.
abbrev pub overflow :
    ℕ
    → RoutingNode
    → RoutingTable
    → ℕ
    → Node
    → ℕ
    → KBucketInner
    → (RoutingNode → RoutingTable → Placed)
    → Option Bool
    → Placed
overflow bit cur t now node handle bucket go none = none
overflow bit cur t now node handle bucket go (some true) =
    after_split bit t go (split now cur t.store)
overflow bit cur t now node handle bucket go (some false) = some (
  false,
  cur,
  record t { store = Prelude.set t.store handle (add_candidate bucket now node t.k) },
)

abbrev pub takes : RoutingTable → KBucketInner → Node → Bool
takes t bucket node = ltb (length bucket.nodes) t.k || is_found (position node.id bucket.nodes)

abbrev pub at_bucket :
    ℕ
    → RoutingNode
    → RoutingTable
    → ℕ
    → Node
    → ℕ
    → (RoutingNode → RoutingTable → Placed)
    → Option KBucketInner
    → Placed
at_bucket bit cur t now node handle go none = none
at_bucket bit cur t now node handle go (some bucket) =
    let (is_new, t') = accept t now handle bucket node in
    let full =
      overflow bit cur t now node handle bucket go (matches_id_prefix bucket.prefix node.id) in
    if takes t bucket node then some (is_new, cur, t') else full

abbrev pub at_leaf :
    ℕ
    → RoutingNode
    → RoutingTable
    → ℕ
    → Node
    → (RoutingNode → RoutingTable → Placed)
    → Option ℕ
    → Placed
at_leaf bit cur t now node go none = none
at_leaf bit cur t now node go (some handle) =
    at_bucket bit cur t now node handle go (get_elem? t.store handle)

abbrev pub at_child :
    ℕ
    → RoutingNode
    → RoutingTable
    → ℕ
    → Node
    → (RoutingNode → RoutingTable → Placed)
    → Child
    → Placed
at_child bit cur t now node go no_child = at_leaf bit cur t now node go (bucket_of cur)
at_child bit cur t now node go (child_at next) = put_child cur bit (go next t)

-- The loop of `insert`, with the rounds that are left.
unfoldable pub insert_at : ℕ → ℕ → RoutingNode → RoutingTable → ℕ → Node → Placed
unfolding accept split add_candidate matches_id_prefix position
insert_at zero index cur t now node = some (false, cur, t)
insert_at (suc rounds) index cur t now node =
    let bit = bit_of node.id index in
    let go =
      λ (next : RoutingNode) (t' : RoutingTable). insert_at rounds (index + 1) next t' now node in
    at_child bit cur t now node go (child cur bit)

unfoldable pub insert : RoutingTable → ℕ → Node → Option (Bool × RoutingTable)
unfolding insert_at
insert t now node = insert_at max_prefix 0 t.root t now node >>= λ (r, root, t').
    some (r, record t' { root = root })
