-- ===== src/Routing/Growth.antt =====
-- What an insertion does to the table of nodes by address.
use dht_spider.Prelude.{
  All, ℕ, zero, suc, ◌+◌, ◌≤◌, ◌≡◌, refl, ap, [], ◌∷◌, Bool, true, false, Option, none, some, List,
  arith, Bytes, length, get_elem?, ◌⊎◌, inl, inr, Bool-cases,
}
use dht_spider.Std.Map as Map
use dht_spider.Std.Map.{bytes_Eq, insert-IsMap, length-insert-le}
use dht_spider.Std.Display.{addr_string}
use dht_spider.Bitmap as Bitmap
use dht_spider.Bitmap.{matches_id_prefix}
use dht_spider.Std.Order.{bytes_eq}
use dht_spider.Types.{Node}
use dht_spider.Routing.Bucket.{KBucketInner}
use dht_spider.Routing.Tree.{
  RoutingNode, routing_node, max_prefix, Child, no_child, child_at, Store, child, bucket_of, bit_of,
  split,
}
use dht_spider.Routing.Table.{
  RoutingTable, Placed, len, cache_children, accept, put_child, into_half, after_split, overflow,
  takes, at_bucket, at_leaf, at_child, insert_at, insert,
}
use dht_spider.Routing.Queries.{values}
use dht_spider.Routing.Cache.{IsKeyed, HasId, IsCache}

-- The table is as before, or has the node under its address.
abbrev Grows : Node → List (Bytes × Node) → List (Bytes × Node) → Type 0
Grows node m m' = (m' ≡ m) ⊎ (m' ≡ Map.insert (addr_string node.addr) node m)

abbrev HasGrown : Node → List (Bytes × Node) → Placed → Type 0
HasGrown node m none = Unit
HasGrown node m (some (r, cur, t)) = Grows node m t.cached_nodes

module _ (node : Node) (now : ℕ) (m : List (Bytes × Node)) where
  -- What goes on below leaves the table of a table with the same nodes alike.
  abbrev Goes : (RoutingNode → RoutingTable → Placed) → Type 0
  Goes go =
      (next : RoutingNode) (t : RoutingTable) → t.cached_nodes ≡ m → HasGrown node m (go next t)

  put_child-HasGrown :
      (cur : RoutingNode) (bit : ℕ) (p : Placed)
      → HasGrown node m p
      → HasGrown node m (put_child cur bit p)
  put_child-HasGrown cur bit none h = tt
  put_child-HasGrown cur bit (some (r, next, t)) h = h

  into_half-HasGrown :
      (parent : RoutingNode) (bit : ℕ) (c : Child) (go : RoutingNode → Placed)
      → ((next : RoutingNode) → HasGrown node m (go next))
      → HasGrown node m (into_half parent bit c go)
  into_half-HasGrown parent bit no_child go h = tt
  into_half-HasGrown parent bit (child_at next) go h =
      put_child-HasGrown parent bit (go next) (h next)

  after_split-HasGrown :
      (bit : ℕ) (t : RoutingTable) (go : RoutingNode → RoutingTable → Placed)
      (s : Option (RoutingNode × Store))
      → t.cached_nodes ≡ m
      → Goes go
      → HasGrown node m (after_split bit t go s)
  after_split-HasGrown bit t go none e h = tt
  after_split-HasGrown bit t go (some (routing_node left right bucket, store)) e h =
      let parent : RoutingNode = routing_node left right bucket in
      into_half-HasGrown parent bit (child parent bit)
        (λ next. go next (cache_children parent (record t { store = store })))
        (λ next. h next (cache_children parent (record t { store = store })) e)

  overflow-HasGrown :
      (bit : ℕ) (cur : RoutingNode) (t : RoutingTable) (handle : ℕ) (bucket : KBucketInner)
      (go : RoutingNode → RoutingTable → Placed) (o : Option Bool)
      → t.cached_nodes ≡ m
      → Goes go
      → HasGrown node m (overflow bit cur t now node handle bucket go o)
  overflow-HasGrown bit cur t handle bucket go none e h = tt
  overflow-HasGrown bit cur t handle bucket go (some true) e h =
      after_split-HasGrown bit t go (split now cur t.store) e h
  overflow-HasGrown bit cur t handle bucket go (some false) e h = inl e

  at_bucket-HasGrown :
      (bit : ℕ) (cur : RoutingNode) (t : RoutingTable) (handle : ℕ)
      (go : RoutingNode → RoutingTable → Placed) (b : Option KBucketInner)
      → t.cached_nodes ≡ m
      → Goes go
      → HasGrown node m (at_bucket bit cur t now node handle go b)
  unfolding accept
  at_bucket-HasGrown bit cur t handle go none e h = tt
  at_bucket-HasGrown bit cur t handle go (some bucket) e h =
      elim (Bool-cases (takes t bucket node)) [
        | inl room ↦ rw room (inr (ap (Map.insert (addr_string node.addr) node) e))
        | inr full ↦ rw full (
            overflow-HasGrown bit cur t handle bucket go (matches_id_prefix bucket.prefix node.id) e
              h)
      ]

  at_leaf-HasGrown :
      (bit : ℕ) (cur : RoutingNode) (t : RoutingTable) (go : RoutingNode → RoutingTable → Placed)
      (handle : Option ℕ)
      → t.cached_nodes ≡ m
      → Goes go
      → HasGrown node m (at_leaf bit cur t now node go handle)
  at_leaf-HasGrown bit cur t go none e h = tt
  at_leaf-HasGrown bit cur t go (some handle) e h =
      at_bucket-HasGrown bit cur t handle go (get_elem? t.store handle) e h

  at_child-HasGrown :
      (bit : ℕ) (cur : RoutingNode) (t : RoutingTable) (go : RoutingNode → RoutingTable → Placed)
      (c : Child)
      → t.cached_nodes ≡ m
      → Goes go
      → HasGrown node m (at_child bit cur t now node go c)
  at_child-HasGrown bit cur t go no_child e h = at_leaf-HasGrown bit cur t go (bucket_of cur) e h
  at_child-HasGrown bit cur t go (child_at next) e h =
      put_child-HasGrown cur bit (go next t) (h next t e)

  insert_at-HasGrown :
      (rounds index : ℕ) (cur : RoutingNode) (t : RoutingTable)
      → t.cached_nodes ≡ m
      → HasGrown node m (insert_at rounds index cur t now node)
  unfolding insert_at
  insert_at-HasGrown zero index cur t e = inl e
  insert_at-HasGrown (suc rounds) index cur t e =
      let bit = bit_of node.id index in
      at_child-HasGrown bit cur t (λ next t'. insert_at rounds (index + 1) next t' now node)
        (child cur bit) e (λ next t' e'. insert_at-HasGrown rounds (index + 1) next t' e')

-- An insertion, as long as it does not panic, leaves each node once under its address, and adds one
-- at most.
pub record IsGrown (t t' : RoutingTable) : Type 0 where
  pub cache : IsCache t.cached_nodes → IsCache t'.cached_nodes
  pub at_most_one : len t' ≤ len t + 1

insert-IsKeyed :
    (n : Node) (m : List (Bytes × Node)) → IsKeyed m → IsKeyed (Map.insert (addr_string n.addr) n m)
unfolding Map.insert
insert-IsKeyed n [] h = (refl, tt)
insert-IsKeyed n ((a, x) ∷ m) h = elim (Bool-cases (bytes_eq (addr_string n.addr) a)) [
  | inl here ↦ rw (here, Map.insert) (refl, h.1)
  | inr away ↦ rw (away, Map.insert) (h.0, insert-IsKeyed n m h.1)
]

insert-All :
    (n : Node) (m : List (Bytes × Node))
    → HasId n
    → All HasId (values m)
    → All HasId (values (Map.insert (addr_string n.addr) n m))
unfolding Map.insert
insert-All n [] id h = (id, tt)
insert-All n ((a, x) ∷ m) id h = elim (Bool-cases (bytes_eq (addr_string n.addr) a)) [
  | inl here ↦ rw (here, Map.insert) (id, h.1)
  | inr away ↦ rw (away, Map.insert) (h.0, insert-All n m id h.1)
]

Grows-IsGrown :
    (n : Node) (t t' : RoutingTable)
    → HasId n
    → Grows n t.cached_nodes t'.cached_nodes
    → IsGrown t t'
Grows-IsGrown n t t' id (inl e) = record {
  cache = λ c. rw e c;
  at_most_one = ground (arith, ap length e);
}
Grows-IsGrown n t t' id (inr e) = record {
  cache = λ c. rw e (record {
    keyed = insert-IsKeyed n t.cached_nodes c.keyed;
    ids = insert-All n t.cached_nodes id c.ids;
    keys = insert-IsMap (addr_string n.addr) n t.cached_nodes c.keys;
  });
  at_most_one =
      let grown = length-insert-le (addr_string n.addr) n t.cached_nodes in
      omega (arith, ap length e, grown);
}

abbrev pub InsertGrows : RoutingTable → Option (Bool × RoutingTable) → Type 0
InsertGrows t none = Unit
InsertGrows t (some (r, t')) = IsGrown t t'

pub insert-IsGrown :
    (t : RoutingTable) (now : ℕ) (n : Node) → HasId n → InsertGrows t (insert t now n)
unfolding insert
insert-IsGrown t now n id =
    outcome (insert_at max_prefix 0 t.root t now n)
      (insert_at-HasGrown n now t.cached_nodes max_prefix 0 t.root t refl)
  where
    outcome :
        (p : Placed)
        → HasGrown n t.cached_nodes p
        → InsertGrows t (Bitmap.◌>>=◌ p (λ (r, root, t'). some (r, record t' { root = root })))
    outcome none h = tt
    outcome (some (r, root, t')) h = Grows-IsGrown n t (record t' { root = root }) id h
