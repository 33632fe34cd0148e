-- ===== src/Routing/BucketLaws.antt =====
-- A bucket stays within its bound, with its nodes in the order of their last activity.
use mathlib.Core.Option
use dht_spider.Prelude as Prelude
use dht_spider.Prelude.{
  ℕ, zero, suc, ◌+◌, ◌<◌, ◌≤◌, ◌≡◌, refl, ap, ◌∙◌, Bool, true, false, Option, none, some, List, [],
  ◌∷◌, ◌++◌, arith, Bytes, All, length, length-append, length-set, ltb, leb, if◌then◌else◌,
  Bool-cases, Option-cases, inl, inr,
}
use dht_spider.Std.Order.{bytes_eq}
use dht_spider.Std.Sort.{IsSorted, sort_by-IsSorted, length-sort_by}
use dht_spider.Types.{Node}
use dht_spider.Routing.Bucket.{
  KBucketInner, no_later, sort_by_last_active, position, insert, add_candidate, pop_front,
  remove_at, behind, pop_back, take_candidate, replace,
}

-- No more nodes and candidates than `k`, the nodes longest inactive first.
pub record IsBucket (k : ℕ) (b : KBucketInner) : Type 0 where
  pub nodes_bounded : length b.nodes ≤ k
  pub candidates_bounded : length b.candidates ≤ k
  pub sorted : IsSorted no_later b.nodes

any_node : (ns : List Node) → All (λ (n : Node). Unit {0}) ns
any_node [] = tt
any_node (n ∷ ns) = (tt, any_node ns)

sort_by_last_active-IsSorted : (ns : List Node) → IsSorted no_later (sort_by_last_active ns)
unfolding sort_by_last_active
sort_by_last_active-IsSorted ns =
    sort_by-IsSorted no_later (λ n. Unit {0}) (λ a b p q h. ground arith)
      (λ a b c p q r h k. ground arith) ns (any_node ns)

length-sort_by_last_active : (ns : List Node) → length (sort_by_last_active ns) ≡ length ns
unfolding sort_by_last_active
length-sort_by_last_active ns = length-sort_by no_later ns

insert-IsBucket :
    (k : ℕ) (b : KBucketInner) (now : ℕ) (node : Node)
    → IsBucket k b
    → IsBucket k (insert b now node k).1
unfolding insert
insert-IsBucket k b now node h = elim (Option-cases (position node.id b.nodes)) [
  | inl new_id ↦ elim (Bool-cases (ltb (length b.nodes) k)) [
    | inl room ↦
        let longer = b.nodes ++ node ∷ [] in
        rw (new_id, insert, room)
          (record {
            nodes_bounded =
                ground
                  (arith, length-sort_by_last_active longer, length-append b.nodes (node ∷ []));
            candidates_bounded = h.candidates_bounded;
            sorted = sort_by_last_active-IsSorted longer;
          })
    | inr full ↦ rw (new_id, insert, full) h
  ]
  | inr (pos, known) ↦
      let changed = Prelude.set b.nodes pos node in
      rw (known, insert)
        (record {
          nodes_bounded = omega (
            arith,
            length-sort_by_last_active changed,
            length-set b.nodes pos node,
            h.nodes_bounded,
          );
          candidates_bounded = h.candidates_bounded;
          sorted = sort_by_last_active-IsSorted changed;
        })
]

length-pop_front : (ns : List Node) → length (pop_front ns) ≤ length ns
length-pop_front [] = omega arith
length-pop_front (n ∷ ns) = omega arith

length-pop_front_lt : (ns : List Node) → 0 < length ns → length (pop_front ns) + 1 ≡ length ns
length-pop_front_lt [] h = absurd (omega arith)
length-pop_front_lt (n ∷ ns) h = omega arith

add_candidate-IsBucket :
    (k : ℕ) (b : KBucketInner) (now : ℕ) (node : Node)
    → IsBucket k b
    → IsBucket k (add_candidate b now node k)
unfolding add_candidate
add_candidate-IsBucket k b now node h =
    let more = b.candidates ++ node ∷ [] in
    let sum = length-append b.candidates (node ∷ []) in
    elim (Bool-cases (ltb k (length more))) [
      | inl over ↦
          rw (add_candidate, over)
            (record {
              nodes_bounded = h.nodes_bounded;
              candidates_bounded =
                  omega (
                    arith,
                    length-pop_front_lt more (omega (arith, sum)),
                    sum,
                    h.candidates_bounded,
                  );
              sorted = h.sorted;
            })
      | inr within ↦
          rw (add_candidate, within)
            (record {
              nodes_bounded = h.nodes_bounded;
              candidates_bounded = ground arith;
              sorted = h.sorted;
            })
    ]

position-remove_at :
    (id : Bytes) (ns : List Node) (pos : ℕ)
    → position id ns ≡ some pos
    → length (remove_at pos ns) + 1 ≡ length ns
unfolding position remove_at
position-remove_at id [] pos e = cc
position-remove_at id (n ∷ ns) pos e = elim (Bool-cases (bytes_eq n.id id)) [
  | inl here ↦ first pos (rw here at e)
  | inr away ↦ later (position-remove_at id ns) (position id ns) refl (rw away at e)
]
  where
    first : (pos : ℕ) → some 0 ≡ some pos → length (remove_at pos (n ∷ ns)) + 1 ≡ length (n ∷ ns)
    first zero e' = omega arith
    first (suc p) e' = cc

    later :
        ((p : ℕ) → position id ns ≡ some p → length (remove_at p ns) + 1 ≡ length ns)
        → (o : Option ℕ) → position id ns ≡ o
        → Option.map suc o ≡ some pos
        → length (remove_at pos (n ∷ ns)) + 1 ≡ length (n ∷ ns)
    later ih none f e' = cc
    later ih (some p) f e' = let at_p : suc p ≡ pos = cc in rw (← at_p) (omega (arith, ih p f))

remove_at-All {κ} :
    (P : Node → Type κ) (pos : ℕ) (ns : List Node) → All P ns → All P (remove_at pos ns)
unfolding remove_at
remove_at-All P pos [] h = tt
remove_at-All P zero (n ∷ ns) h = h.1
remove_at-All P (suc pos) (n ∷ ns) h = (h.0, remove_at-All P pos ns h.1)

remove_at-IsSorted :
    (pos : ℕ) (ns : List Node) → IsSorted no_later ns → IsSorted no_later (remove_at pos ns)
unfolding remove_at
remove_at-IsSorted pos [] h = tt
remove_at-IsSorted zero (n ∷ ns) h = h.1
remove_at-IsSorted (suc pos) (n ∷ ns) h =
    (remove_at-All _ pos ns h.0, remove_at-IsSorted pos ns h.1)

pop_back-none : (ns : List Node) → pop_back ns ≡ none → length ns ≡ 0
unfolding pop_back
pop_back-none [] e = refl
pop_back-none (n ∷ ns) e = by_case (pop_back ns) e
  where
    by_case : (o : Option (Node × List Node)) → behind n o ≡ none → length (n ∷ ns) ≡ 0
    by_case none e' = cc
    by_case (some (l, b)) e' = cc

length-pop_back :
    (ns : List Node) (last : Node) (before : List Node)
    → pop_back ns ≡ some (last, before)
    → length before + 1 ≡ length ns
unfolding pop_back
length-pop_back [] last before e = cc
length-pop_back (n ∷ ns) last before e = by_case (length-pop_back ns) (pop_back ns) refl e
  where
    by_case :
        ((l : Node) (b : List Node) → pop_back ns ≡ some (l, b) → length b + 1 ≡ length ns)
        → (o : Option (Node × List Node)) → pop_back ns ≡ o
        → behind n o ≡ some (last, before)
        → length before + 1 ≡ length (n ∷ ns)
    by_case ih none f e' =
        let same : [] ≡ before = cc in rw (← same) (omega (arith, pop_back-none ns f))
    by_case ih (some (l, b)) f e' =
        let same : n ∷ b ≡ before = cc in rw (← same) (omega (arith, ih l b f))

take_candidate-IsBucket :
    (k : ℕ) (b : KBucketInner)
    → IsBucket k b
    → length b.nodes < k
    → IsBucket k (take_candidate (pop_back b.candidates) b)
take_candidate-IsBucket k b h room = by_case (pop_back b.candidates) refl
  where
    by_case :
        (o : Option (Node × List Node))
        → pop_back b.candidates ≡ o
        → IsBucket k (take_candidate o b)
    by_case none e = h
    by_case (some (cand, left)) e =
        let more = b.nodes ++ cand ∷ [] in
        record {
          nodes_bounded =
              omega
                (arith, length-sort_by_last_active more, length-append b.nodes (cand ∷ []), room);
          candidates_bounded =
              omega (arith, length-pop_back b.candidates cand left e, h.candidates_bounded);
          sorted = sort_by_last_active-IsSorted more;
        }

replace-IsBucket :
    (k : ℕ) (b : KBucketInner) (now : ℕ) (id : Bytes) → IsBucket k b → IsBucket k (replace b now id)
unfolding replace
replace-IsBucket k b now id h = elim (Option-cases (position id b.nodes)) [
  | inl unknown ↦ rw (replace, unknown) h
  | inr (pos, known) ↦
      let shorter = position-remove_at id b.nodes pos known in
      let without : KBucketInner = record b { nodes = remove_at pos b.nodes } in
      let kept : IsBucket k without = record {
        nodes_bounded = omega (arith, shorter, h.nodes_bounded);
        candidates_bounded = h.candidates_bounded;
        sorted = remove_at-IsSorted pos b.nodes h.sorted;
      } in
      let full = take_candidate-IsBucket k without kept (omega (arith, shorter, h.nodes_bounded)) in
      rw (replace, known)
        (record {
          nodes_bounded = full.nodes_bounded;
          candidates_bounded = full.candidates_bounded;
          sorted = full.sorted;
        })
]

-- Inserting a node, keeping one as a candidate and replacing one all keep a bucket within `k` nodes
-- and `k` candidates, with its nodes in the order of their last activity.
pub upkeep-IsBucket :
    (k : ℕ) (b : KBucketInner) (now : ℕ) (node : Node) (id : Bytes)
    → IsBucket k b
    → IsBucket k (insert b now node k).1
      × IsBucket k (add_candidate b now node k)
      × IsBucket k (replace b now id)
upkeep-IsBucket k b now node id h = (
  insert-IsBucket k b now node h,
  add_candidate-IsBucket k b now node h,
  replace-IsBucket k b now id h,
)
