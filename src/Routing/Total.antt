-- ===== src/Routing/Total.antt =====
-- An insertion never panics, and keeps the shape of the tree.
use dht_spider.Prelude as Prelude
use dht_spider.Prelude.{
  ℕ, zero, suc, ◌+◌, ◌*◌, ◌/◌, ◌%◌, ◌<◌, ◌≤◌, ◌≡◌, refl, sym, ap, ◌∙◌, Bool, true, false, Option,
  none, some, List, [], ◌∷◌, ◌++◌, All, All-append, arith, Bytes, length, get_elem?, get_or, leb,
  ltb, ◌==◌, Bool-cases, inl, inr, take, Option-cases,
}
use dht_spider.Std.Order.{bytes_eq}
use dht_spider.Types.{Node}
use dht_spider.Bitmap as Bitmap
use dht_spider.Bitmap.{match_bits, matches_id_prefix, bit_in}
use dht_spider.Bitmap.Bits.{get_elem?-get_or, raw}
use dht_spider.Bitmap.Laws.{IsBitmap, bit-raw, new-IsBitmap}
use dht_spider.Routing.Bucket as Bucket
use dht_spider.Routing.Bucket.{KBucketInner, add_candidate, position}
use dht_spider.Routing.Tree.{
  RoutingNode, routing_node, no_child, child_at, Store, leaf, bit_of, split, max_prefix,
}
use dht_spider.Routing.Table.{
  RoutingTable, new, Placed, cache_children, is_cached, accept, put_child, after_split, overflow,
  takes, at_bucket, insert_at, insert,
}
use dht_spider.Routing.Shape.{
  IsPlace, IsTree, IsCached, Extends, refl-Extends, trans-Extends, set-Extends, IsTree-Extends,
  IsCached-Extends, split-IsTree,
}

-- A prefix no longer than an id is compared with it without a panic.
match_bits-total :
    (rounds i : ℕ) (b : Bitmap.Bitmap) (id : Bytes)
    → IsBitmap b
    → length id ≡ 20
    → b.size ≤ max_prefix
    → i + rounds ≤ b.size
    → (r : Bool) × (match_bits rounds i b id ≡ some r)
unfolding match_bits
match_bits-total zero i b id h hi few room = (true, refl)
match_bits-total (suc rounds) i b id h hi few room =
    let (r, rest) = match_bits-total rounds (i + 1) b id h hi few (omega arith) in
    let theirs = get_elem?-get_or id (i / 8) (omega arith) in
    let mine = bit-raw b i h (omega arith) in
    elim (Bool-cases (raw b.bytes i == bit_in (get_or id (i / 8) 0) i)) [
      | inl same ↦ (r, rw (theirs, mine, same) rest)
      | inr other ↦ (false, rw (theirs, mine, other) refl)
    ]

pub matches_id_prefix-total :
    (b : Bitmap.Bitmap) (id : Bytes)
    → IsBitmap b
    → length id ≡ 20
    → b.size ≤ max_prefix
    → (r : Bool) × (matches_id_prefix b id ≡ some r)
unfolding matches_id_prefix
matches_id_prefix-total b id h hi few =
    let inside : leb (b.size / 8) (length b.bytes) ≡ true = ground (arith, h.byte_length) in
    let short : leb (b.size / 8) (length id) ≡ true = ground arith in
    let (r, tail) = match_bits-total (b.size % 8) (b.size / 8 * 8) b id h hi few (omega arith) in
    elim (Bool-cases (bytes_eq (take (b.size / 8) b.bytes) (take (b.size / 8) id))) [
      | inl same ↦ (r, rw (inside, short, same) tail)
      | inr other ↦ (false, rw (inside, short, other) refl)
    ]

prefix-insert :
    (b : KBucketInner) (now : ℕ) (node : Node) (k : ℕ)
    → (Bucket.insert b now node k).1.prefix ≡ b.prefix
unfolding Bucket.insert
prefix-insert b now node k = elim (Option-cases (position node.id b.nodes)) [
  | inl e ↦ elim (Bool-cases (ltb (length b.nodes) k)) [
    | inl room ↦ rw (e, Bucket.insert, room) refl
    | inr full ↦ rw (e, Bucket.insert, full) refl
  ]
  | inr (pos, e) ↦ rw (e, Bucket.insert) refl
]

abbrev AreCached : RoutingTable → Type 0
AreCached t = All (IsCached t.store) t.cached_buckets

-- The loop came to an end below a node, whose store was the given one.
abbrev IsPlaced : ℕ → Store → Placed → Type 0
IsPlaced n s none = ⊥
IsPlaced n s (some (r, cur, t)) = IsTree n t.store cur × Extends s t.store × AreCached t

module _ (node : Node) (now : ℕ) (id : length node.id ≡ 20) where
  abbrev Goes : ℕ → (RoutingNode → RoutingTable → Placed) → Type 0
  Goes n go =
      (next : RoutingNode) (t : RoutingTable)
      → IsTree n t.store next
      → AreCached t
      → IsPlaced n t.store (go next t)

  put_child-IsPlaced :
      (n : ℕ) (s s' : Store) (left right : RoutingNode) (bit : ℕ) (p : Placed)
      → Extends s s'
      → IsTree (suc n) s' left
      → IsTree (suc n) s' right
      → IsPlaced (suc n) s' p
      → IsPlaced n s (put_child (routing_node (child_at left) (child_at right) none) bit p)
  put_child-IsPlaced n s s' left right bit none f hl hr h = h
  put_child-IsPlaced n s s' left right bit (some (r, next, t)) f hl hr (tree, g, cached) =
      elim (Bool-cases (bit == 0)) [
        | inl zero_bit ↦ rw zero_bit (
          (tree, IsTree-Extends (suc n) s' t.store right g hr),
          trans-Extends s s' t.store f g,
          cached,
        )
        | inr one_bit ↦ rw one_bit (
          (IsTree-Extends (suc n) s' t.store left g hl, tree),
          trans-Extends s s' t.store f g,
          cached,
        )
      ]

  after_split-IsPlaced :
      (n h bit : ℕ) (t : RoutingTable) (go : RoutingNode → RoutingTable → Placed)
      → n < max_prefix
      → IsPlace n t.store h
      → AreCached t
      → Goes (suc n) go
      → IsPlaced n t.store (after_split bit t go (split now (leaf h) t.store))
  after_split-IsPlaced n h bit t go few place cached k =
      let (s', e, f, hl, hr) = split-IsTree now n h t.store few place in
      let l = length t.store in
      let parent : RoutingNode = routing_node (child_at (leaf l)) (child_at (leaf (l + 1))) none in
      let t' : RoutingTable = cache_children parent (record t { store = s' }) in
      let cached' : AreCached t' =
        All-append (IsCached s') t.cached_buckets (l ∷ (l + 1) ∷ [])
          (IsCached-Extends t.store s' t.cached_buckets f cached)
          ((suc n, omega arith, hl), ((suc n, omega arith, hr), tt)) in
      elim (Bool-cases (bit == 0)) [
        | inl zero_bit ↦
            rw (e, zero_bit)
              (put_child-IsPlaced n t.store s' (leaf l) (leaf (l + 1)) bit (go (leaf l) t') f hl hr
                (k (leaf l) t' hl cached'))
        | inr one_bit ↦
            rw (e, one_bit)
              (put_child-IsPlaced n t.store s' (leaf l) (leaf (l + 1)) bit (go (leaf (l + 1)) t') f
                hl hr (k (leaf (l + 1)) t' hr cached'))
      ]

  overflow-IsPlaced :
      (n h bit : ℕ) (t : RoutingTable) (b : KBucketInner) (go : RoutingNode → RoutingTable → Placed)
      (o : (r : Bool) × (matches_id_prefix b.prefix node.id ≡ some r))
      → n < max_prefix
      → get_elem? t.store h ≡ some b
      → IsPlace n t.store h
      → AreCached t
      → Goes (suc n) go
      → IsPlaced n t.store
          (overflow bit (leaf h) t now node h b go (matches_id_prefix b.prefix node.id))
  unfolding add_candidate
  overflow-IsPlaced n h bit t b go (true, e) few here place cached k =
      rw e (after_split-IsPlaced n h bit t go few place cached k)
  overflow-IsPlaced n h bit t b go (false, e) few here place cached k =
      let kept = add_candidate b now node t.k in
      let f = set-Extends t.store h b kept here refl in
      rw e (
        IsTree-Extends n t.store (Prelude.set t.store h kept) (leaf h) f place,
        f,
        IsCached-Extends t.store (Prelude.set t.store h kept) t.cached_buckets f cached,
      )

  accept-IsPlaced :
      (n h : ℕ) (t : RoutingTable) (b : KBucketInner)
      → n < max_prefix
      → get_elem? t.store h ≡ some b
      → IsPlace n t.store h
      → AreCached t
      → let (r, t') = accept t now h b node in IsPlaced n t.store (some (r, leaf h, t'))
  unfolding accept
  accept-IsPlaced n h t b few here place cached =
      let changed = (Bucket.insert b now node t.k).1 in
      let s' = Prelude.set t.store h changed in
      let f = set-Extends t.store h b changed here (prefix-insert b now node t.k) in
      let place' = IsTree-Extends n t.store s' (leaf h) f place in
      let cached' = IsCached-Extends t.store s' t.cached_buckets f cached in
      elim (Bool-cases (is_cached h t.cached_buckets)) [
        | inl old ↦ rw old (place', f, cached')
        | inr new ↦ rw new (
          place',
          f,
          All-append (IsCached s') t.cached_buckets (h ∷ []) cached' ((n, omega arith, place'), tt),
        )
      ]

  at_bucket-IsPlaced :
      (n h bit : ℕ) (t : RoutingTable) (go : RoutingNode → RoutingTable → Placed)
      → n < max_prefix
      → IsPlace n t.store h
      → AreCached t
      → Goes (suc n) go
      → IsPlaced n t.store (at_bucket bit (leaf h) t now node h go (get_elem? t.store h))
  at_bucket-IsPlaced n h bit t go few (b, here, size, bitmap) cached k =
      elim (Bool-cases (takes t b node)) [
        | inl room ↦
            rw (here, room) (accept-IsPlaced n h t b few here (b, here, size, bitmap) cached)
        | inr full ↦
            rw (here, full)
              (overflow-IsPlaced n h bit t b go
                (matches_id_prefix-total b.prefix node.id bitmap id (omega arith)) few here
                (b, here, size, bitmap) cached k)
      ]

  insert_at-IsPlaced :
      (rounds index : ℕ) (cur : RoutingNode) (t : RoutingTable)
      → rounds + index ≡ max_prefix
      → IsTree index t.store cur
      → AreCached t
      → IsPlaced index t.store (insert_at rounds index cur t now node)
  unfolding insert_at
  insert_at-IsPlaced zero index cur t e tree cached = (tree, refl-Extends t.store, cached)
  insert_at-IsPlaced (suc rounds) index (routing_node no_child no_child (some h)) t e tree cached =
      let bit = bit_of node.id index in
      let s : index + 1 ≡ suc index = omega arith in
      let go =
        λ (next : RoutingNode) (t' : RoutingTable). insert_at rounds (index + 1) next t' now node in
      let k : Goes (suc index) go = λ next t' below kept.
        rw s (insert_at-IsPlaced rounds (suc index) next t' (omega arith) below kept) in
      let placed = at_bucket-IsPlaced index h bit t go (omega arith) tree cached k in
      elim (Bool-cases (bit == 0)) [
        | inl zero_bit ↦ rw zero_bit placed
        | inr one_bit ↦ rw one_bit placed
      ]
  insert_at-IsPlaced (suc rounds) index (routing_node (child_at l) (child_at r) none) t e tree
        cached =
      let bit = bit_of node.id index in
      let s : index + 1 ≡ suc index = omega arith in
      let below = λ (next : RoutingNode) (in_tree : IsTree (suc index) t.store next).
        put_child-IsPlaced index t.store t.store l r bit
          (insert_at rounds (suc index) next t now node) (refl-Extends t.store) tree.0 tree.1
          (insert_at-IsPlaced rounds (suc index) next t (omega arith) in_tree cached) in
      elim (Bool-cases (bit == 0)) [
        | inl zero_bit ↦ rw (s, zero_bit) (below l tree.0)
        | inr one_bit ↦ rw (s, one_bit) (below r tree.1)
      ]
  insert_at-IsPlaced (suc rounds) index (routing_node no_child no_child none) t e tree cached =
      absurd tree
  insert_at-IsPlaced (suc rounds) index (routing_node (child_at l) (child_at r) (some h)) t e tree
        cached =
      absurd tree
  insert_at-IsPlaced (suc rounds) index (routing_node no_child (child_at r) b) t e tree cached =
      absurd tree
  insert_at-IsPlaced (suc rounds) index (routing_node (child_at l) no_child b) t e tree cached =
      absurd tree

-- The tree has its shape, and the buckets in the table's list are buckets with a prefix.
pub record IsShaped (t : RoutingTable) : Type 0 where
  pub tree : IsTree 0 t.store t.root
  pub cached : All (IsCached t.store) t.cached_buckets

pub new-IsShaped : (now k : ℕ) → IsShaped (new now k)
unfolding new Bitmap.new Bucket.new
new-IsShaped now k =
    let place : IsPlace 0 (new now k).store 0 = (_, refl, refl, new-IsBitmap 0) in
    record { tree = place; cached = ((0, omega arith, place), tt) }

abbrev pub InsertShaped : Option (Bool × RoutingTable) → Type 0
InsertShaped none = ⊥
InsertShaped (some (r, t)) = IsShaped t

-- In a table whose tree has its shape (a leaf has a bucket with a prefix as long as the leaf is
-- deep, a branch has two children and no bucket) and whose list of buckets names such buckets, the
-- insertion of a node with an id of twenty bytes ends without a panic, and the table keeps that
-- shape.
pub insert-IsShaped :
    (t : RoutingTable) (now : ℕ) (n : Node)
    → length n.id ≡ 20
    → IsShaped t
    → InsertShaped (insert t now n)
unfolding insert
insert-IsShaped t now n id h =
    ended (insert_at max_prefix 0 t.root t now n)
      (insert_at-IsPlaced n now id max_prefix 0 t.root t (omega arith) h.tree h.cached)
  where
    ended :
        (p : Placed)
        → IsPlaced 0 t.store p
        → InsertShaped (Bitmap.◌>>=◌ p (λ (r, root, t'). some (r, record t' { root = root })))
    ended none k = absurd k
    ended (some (r, root, t')) (tree, f, cached) = record { tree = tree; cached = cached }
