-- ===== src/Routing/Tree.antt =====
-- `RoutingNode` of src/routing.rs and the traversals of the tree. An `Arc` of a bucket is its index
-- in a store, since the table keeps the buckets of the tree a second time in `cached_buckets`.
use dht_spider.Prelude as Prelude
use dht_spider.Prelude.{
  ℕ, zero, suc, ◌+◌, ◌-◌, ◌*◌, ◌/◌, ◌%◌, ◌^◌, Bool, true, false, Option, none, some, List, [], ◌∷◌,
  ◌++◌, Bytes, length, get_elem?, get_or, leb, ltb, ◌==◌, if◌then◌else◌,
}
use dht_spider.Types.{Node}
use dht_spider.Bitmap.{Bitmap, bit_in, extend_one, ◌>>=◌}
use dht_spider.Routing.Bucket.{KBucketInner, new}

abbrev pub max_prefix : ℕ
max_prefix = 160

-- The children for bit 0 and bit 1, and the handle of the bucket.
mutual
  pub data RoutingNode : Type 0 where
    routing_node : Child → Child → Option ℕ → RoutingNode

  pub data Child : Type 0 where
    no_child : Child
    child_at : RoutingNode → Child

abbrev pub Store : Type 0
Store = List KBucketInner

abbrev pub leaf : ℕ → RoutingNode
leaf handle = routing_node no_child no_child (some handle)

abbrev pub child : RoutingNode → ℕ → Child
child (routing_node left right bucket) bit = if bit == 0 then left else right

abbrev pub set_child : RoutingNode → ℕ → RoutingNode → RoutingNode
set_child (routing_node left right bucket) bit next =
    if bit == 0
    then routing_node (child_at next) right bucket
    else routing_node left (child_at next) bucket

abbrev pub bucket_of : RoutingNode → Option ℕ
bucket_of (routing_node left right bucket) = bucket

-- An id has twenty bytes, and the index is below 160.
abbrev pub bit_of : Bytes → ℕ → ℕ
bit_of id index = bit_in (get_or id (index / 8) 0) index

-- The nodes whose bit at the index is the given one, in their order: what a child gets.
unfoldable pub with_bit : ℕ → ℕ → List Node → List Node
with_bit bit index [] = []
with_bit bit index (n ∷ ns) =
    let b = if bit_of n.id index == 0 then 0 else 1 in
    if b == bit then n ∷ with_bit bit index ns else with_bit bit index ns

unfoldable pub share : ℕ → ℕ → KBucketInner → Bitmap → KBucketInner
unfolding with_bit new
share now bit bucket prefix =
    let size = bucket.prefix.size in
    record (new now prefix) {
      nodes = with_bit bit size bucket.nodes;
      candidates = with_bit bit size bucket.candidates;
    }

-- The buckets of the children are the two new entries of the store; the old one is left empty.
unfoldable pub split : ℕ → RoutingNode → Store → Option (RoutingNode × Store)
unfolding share
split now node store = elim (bucket_of node) [
  | none ↦ some (node, store)
  | some handle ↦ get_elem? store handle >>= λ bucket.
      if leb max_prefix bucket.prefix.size
      then some (node, store)
      else (extend_one bucket.prefix 0 >>= λ left_prefix.
          extend_one bucket.prefix 1 >>= λ right_prefix.
          let left = share now 0 bucket left_prefix in
          let right = share now 1 bucket right_prefix in
          let emptied = record bucket { nodes = []; candidates = [] } in
          some (
            routing_node (child_at (leaf (length store))) (child_at (leaf (length store + 1))) none,
            Prelude.set store handle emptied ++ left ∷ right ∷ [],
          ))
]

-- The walk of `remove_from_buckets`, of so many rounds: the node where it stops.
unfoldable pub walk : ℕ → ℕ → Bytes → RoutingNode → RoutingNode
walk zero index id cur = cur
walk (suc rounds) index id (routing_node left right bucket) =
    elim (if bit_of id index == 0 then left else right) [
      | no_child ↦ routing_node left right bucket
      | child_at next ↦ walk rounds (index + 1) id next
    ]

unfoldable pub modify : ℕ → (KBucketInner → KBucketInner) → Store → Store
modify handle f [] = []
modify zero f (b ∷ bs) = f b ∷ bs
modify (suc handle) f (b ∷ bs) = b ∷ modify handle f bs
