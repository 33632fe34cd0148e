-- ===== src/Routing/Neighbors.antt =====
-- The neighbours of a target: the nodes of the table, nearest first.
use mathlib.Core.List.{Perm}
use dht_spider.Prelude.{
  ℕ, suc, ◌*◌, min, ◌≡◌, refl, sym, ap, ◌++◌, take-append-drop, ◌∙◌, Bool, true, false, some, List,
  [], ◌∷◌, arith, Bytes, All, length, length-take, drop, append-nil, ltb, Bool-cases, inl, inr,
  Ordering,
}
use dht_spider.Std.Order.{bytes_cmp, bytes_cmp-gt, bytes_cmp-eq, bytes_cmp_trans}
use dht_spider.Std.Sort.{
  sort_by-Perm, sort_by, IsSorted, sort_by-IsSorted, sort_by-All, length-sort_by,
}
use dht_spider.Types.{Node}
use dht_spider.Bitmap.Distance.{xor_of, length-xor_of, xor-from_bytes, compare_prefix_whole}
use dht_spider.Routing.Table.{RoutingTable, len}
use dht_spider.Routing.Cache.{HasId}
use dht_spider.Routing.Queries.{values, distance_cmp, no_farther, neighbors_by_target}

-- The comparison is the order of the distances, as numbers of 160 bits written in bytes.
distance_cmp-bytes_cmp :
    (target : Bytes) (a b : Node)
    → length target ≡ 20
    → HasId a
    → HasId b
    → distance_cmp target a b ≡ some (bytes_cmp (xor_of target a.id) (xor_of target b.id))
unfolding distance_cmp
distance_cmp-bytes_cmp target a b ht ha hb =
    let la = length-xor_of target a.id (ht ∙ sym ha) in
    let lb = length-xor_of target b.id (ht ∙ sym hb) in
    let bits : length (xor_of target a.id) * 8 ≡ 160 = omega (arith, la, ht) in
    let c = compare_prefix_whole (xor_of target a.id) (xor_of target b.id) 160 (la ∙ sym lb) bits in
    rw (xor-from_bytes target a.id (ht ∙ sym ha), xor-from_bytes target b.id (ht ∙ sym hb)) c

abbrev not_gt : Ordering → Bool
not_gt Ordering.gt = false
not_gt Ordering.eq = true
not_gt Ordering.lt = true

-- Nearer to the target or as near: the distances as byte strings.
abbrev pub nearer : Bytes → Node → Node → Bool
nearer target a b = not_gt (bytes_cmp (xor_of target a.id) (xor_of target b.id))

no_farther-nearer :
    (target : Bytes) (a b : Node)
    → length target ≡ 20
    → HasId a
    → HasId b
    → no_farther target a b ≡ nearer target a b
unfolding no_farther
no_farther-nearer target a b ht ha hb =
    rw (no_farther, distance_cmp-bytes_cmp target a b ht ha hb)
      (cases (bytes_cmp (xor_of target a.id) (xor_of target b.id)))
  where
    cases : (o : Ordering) → elim o [ Ordering.gt ↦ false | _ ↦ true ] ≡ not_gt o
    cases Ordering.lt = refl
    cases Ordering.eq = refl
    cases Ordering.gt = refl

not_gt-total : (xs ys : Bytes) → not_gt (bytes_cmp xs ys) ≡ false → not_gt (bytes_cmp ys xs) ≡ true
not_gt-total xs ys h = by_case (bytes_cmp xs ys) refl h
  where
    by_case :
        (o : Ordering) → bytes_cmp xs ys ≡ o → not_gt o ≡ false → not_gt (bytes_cmp ys xs) ≡ true
    by_case Ordering.lt e k = cc
    by_case Ordering.eq e k = cc
    by_case Ordering.gt e k = rw (bytes_cmp-gt xs ys e) refl

not_gt_trans :
    (xs ys zs : Bytes)
    → not_gt (bytes_cmp xs ys) ≡ true
    → not_gt (bytes_cmp ys zs) ≡ true
    → not_gt (bytes_cmp xs zs) ≡ true
not_gt_trans xs ys zs h k = by_case (bytes_cmp xs ys) refl h (bytes_cmp ys zs) refl k
  where
    by_case :
        (o : Ordering)
        → bytes_cmp xs ys ≡ o
        → not_gt o ≡ true
        → (p : Ordering) → bytes_cmp ys zs ≡ p
        → not_gt p ≡ true
        → not_gt (bytes_cmp xs zs) ≡ true
    by_case Ordering.gt e g p f q = cc
    by_case Ordering.eq e g p f q = rw (bytes_cmp-eq xs ys e, f) q
    by_case Ordering.lt e g Ordering.lt f q = rw (bytes_cmp_trans xs ys zs e f) refl
    by_case Ordering.lt e g Ordering.eq f q = rw (← bytes_cmp-eq ys zs f, e) refl
    by_case Ordering.lt e g Ordering.gt f q = cc

module _ (target : Bytes) (ht : length target ≡ 20) where
  no_farther-total :
      (a b : Node)
      → HasId a
      → HasId b
      → no_farther target a b ≡ false
      → no_farther target b a ≡ true
  no_farther-total a b ha hb e =
      no_farther-nearer target b a ht hb ha
      ∙ not_gt-total (xor_of target a.id) (xor_of target b.id)
          (sym (no_farther-nearer target a b ht ha hb) ∙ e)

  no_farther_trans :
      (a b c : Node)
      → HasId a
      → HasId b
      → HasId c
      → no_farther target a b ≡ true
      → no_farther target b c ≡ true
      → no_farther target a c ≡ true
  no_farther_trans a b c ha hb hc e f =
      no_farther-nearer target a c ht ha hc
      ∙ not_gt_trans (xor_of target a.id) (xor_of target b.id) (xor_of target c.id)
          (sym (no_farther-nearer target a b ht ha hb) ∙ e)
          (sym (no_farther-nearer target b c ht hb hc) ∙ f)

  All-nearer :
      (a : Node) (ns : List Node)
      → HasId a
      → All HasId ns
      → All (λ b. no_farther target a b ≡ true) ns
      → All (λ b. nearer target a b ≡ true) ns
  All-nearer a [] ha hs h = tt
  All-nearer a (n ∷ ns) ha hs h =
      (sym (no_farther-nearer target a n ht ha hs.0) ∙ h.0, All-nearer a ns ha hs.1 h.1)

  nearer-IsSorted :
      (ns : List Node)
      → All HasId ns
      → IsSorted (no_farther target) ns
      → IsSorted (nearer target) ns
  nearer-IsSorted [] hs h = tt
  nearer-IsSorted (n ∷ ns) hs h = (All-nearer n ns hs.0 hs.1 h.0, nearer-IsSorted ns hs.1 h.1)

  sort_by-nearer :
      (ns : List Node) → All HasId ns → IsSorted (nearer target) (sort_by (no_farther target) ns)
  sort_by-nearer ns hs =
      nearer-IsSorted (sort_by (no_farther target) ns) (sort_by-All (no_farther target) HasId ns hs)
        (sort_by-IsSorted (no_farther target) HasId no_farther-total no_farther_trans ns hs)

length-values : (m : List (Bytes × Node)) → length (values m) ≡ length m
length-values [] = refl
length-values ((a, n) ∷ m) = ap suc (length-values m)

-- The neighbours of a target are the nearest nodes of the table, nearest first: together with the
-- nodes that are left out they are the table's nodes, sorted by the distance, and they are as many
-- as were asked for, or all there are.
pub neighbors_by_target_lem :
    (t : RoutingTable) (target : Bytes) (size : ℕ)
    → length target ≡ 20
    → All HasId (values t.cached_nodes)
    → let ns = neighbors_by_target t target size in
      (rest : List Node) × Perm (ns ++ rest) (values t.cached_nodes)
      × IsSorted (nearer target) (ns ++ rest)
      × (length ns ≡ min size (len t))
unfolding neighbors_by_target
neighbors_by_target_lem t target size ht hs =
    let nodes = values t.cached_nodes in
    let sorted = sort_by (no_farther target) nodes in
    let total = length-sort_by (no_farther target) nodes in
    let count = length-values t.cached_nodes in
    let perm = sort_by-Perm (no_farther target) nodes in
    let order = sort_by-nearer target ht nodes hs in
    elim (Bool-cases (ltb size (length sorted))) [
      | inl more ↦
          let split = take-append-drop size sorted in
          (
            drop size sorted,
            rw (more, split) perm,
            rw (more, split) order,
            rw more (length-take size sorted ∙ ap (min size) (total ∙ count)),
          )
      | inr all ↦ (
        [],
        rw (all, append-nil sorted) perm,
        rw (all, append-nil sorted) order,
        rw all (ground (arith, total, count)),
      )
    ]
