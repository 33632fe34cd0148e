-- ===== src/Routing/Tests.antt =====
-- Runs of the routing table, and the theorems at concrete inputs.
use mathlib.Core.List.{Perm}
use dht_spider.Prelude.{
  ℕ, ◌≡◌, ◌≤◌, refl, List, [], ◌∷◌, ◌++◌, Option, none, some, Bool, false, arith, Bytes, codes,
  length, replicate, min,
}
use dht_spider.Std.Net.{v4}
use dht_spider.Std.Display.{addr_string, ip_string}
use dht_spider.Std.Decimal.{decimal, digits}
use dht_spider.Std.Order.{bytes_cmp, bytes_eq}
use dht_spider.Std.Map as Map
use dht_spider.Std.Map.{bytes_Eq}
use dht_spider.Std.Sort.{IsSorted}
use dht_spider.Types.{Node}
use dht_spider.Bitmap as Bitmap
use dht_spider.Routing.Bucket as Bucket
use dht_spider.Routing.Bucket.{KBucketInner, add_candidate, replace, sort_by_last_active}
use dht_spider.Routing.BucketLaws.{IsBucket, upkeep-IsBucket}
use dht_spider.Routing.Table.{RoutingTable, new, insert, len}
use dht_spider.Routing.Queries.{values, neighbors_by_target, get_neighbors_compact, is_stale, prune}
use dht_spider.Routing.Cache.{IsCache}
use dht_spider.Bitmap.Laws.{new-IsBitmap}
use dht_spider.Routing.Shape.{IsPlace}
use dht_spider.Routing.Total.{IsShaped, InsertShaped, insert-IsShaped}
use dht_spider.Routing.Pruning.{len-prune, get-prune}
use dht_spider.Routing.Neighbors.{nearer, neighbors_by_target_lem}

program : Unit {0}
unfolding new insert neighbors_by_target get_neighbors_compact prune bytes_cmp bytes_eq addr_string
    Bitmap.extend_one ip_string decimal digits Bucket.insert add_candidate replace
    sort_by_last_active
program = tt

-- A node whose id starts with the given byte.
abbrev node_at : ℕ → ℕ → Node
node_at first last_active = record {
  id = first ∷ replicate 19 0;
  addr = record { ip = v4 10 0 0 first; port = 6881 };
  last_active = last_active;
}

abbrev filled : Option (Bool × RoutingTable) → List ℕ
filled none = []
filled (some (r, t)) = length t.cached_nodes ∷ length t.store ∷ t.cached_buckets

abbrev then_insert : Node → Option (Bool × RoutingTable) → Option (Bool × RoutingTable)
then_insert n none = none
then_insert n (some (r, t)) = insert t 9 n

-- Two nodes fill the only bucket; the third splits it.
insert_splits :
    filled
      (then_insert (node_at 3 7) (then_insert (node_at 200 6) (insert (new 0 2) 9 (node_at 1 5))))
    ≡ 3 ∷ 3 ∷ 0 ∷ 1 ∷ 2 ∷ []
unfolding program
insert_splits = refl

abbrev entry : ℕ → ℕ → Bytes → Bytes × Node
entry first last_active addr = (addr, node_at first last_active)

abbrev two : RoutingTable
two = record (new 0 8) {
  cached_nodes = entry 1 5 (codes "10.0.0.1:6881") ∷ entry 4 90 (codes "10.0.0.4:6881") ∷ [];
}

neighbors_run : neighbors_by_target two (5 ∷ replicate 19 0) 1 ≡ node_at 4 90 ∷ []
unfolding program
neighbors_run = refl

prune_runs : (prune two 100 50 8).cached_nodes ≡ entry 4 90 (codes "10.0.0.4:6881") ∷ []
unfolding program
prune_runs = refl

two-IsCache : IsCache two.cached_nodes
unfolding program Map.contains_key
two-IsCache = record {
  keyed = (refl, (refl, tt));
  keys = (refl, (refl, tt));
  ids = (refl, (refl, tt));
}

len-prune_example : len (prune two 100 200 1) ≤ 1
len-prune_example = len-prune two 100 200 1 two-IsCache

get-prune_example :
    (Map.get (codes "10.0.0.4:6881") two.cached_nodes ≡ some (node_at 4 90))
    × (is_stale 100 50 (node_at 4 90) ≡ false)
unfolding program Map.get
get-prune_example = get-prune two 100 50 8 (codes "10.0.0.4:6881") (node_at 4 90) two-IsCache refl

neighbors_by_target_lem_example :
    let target : Bytes = 5 ∷ replicate 19 0 in
    let ns = neighbors_by_target two target 1 in
    (rest : List Node) × Perm (ns ++ rest) (values two.cached_nodes)
    × IsSorted (nearer target) (ns ++ rest)
    × (length ns ≡ min 1 (len two))
neighbors_by_target_lem_example =
    neighbors_by_target_lem two (5 ∷ replicate 19 0) 1 refl (refl, (refl, tt))

abbrev one : KBucketInner
one = record { nodes = node_at 1 5 ∷ []; candidates = []; prefix = Bitmap.new 0; last_changed = 0 }

upkeep-IsBucket_example :
    IsBucket 2 (Bucket.insert one 9 (node_at 2 3) 2).1
    × IsBucket 2 (add_candidate one 9 (node_at 2 3) 2)
    × IsBucket 2 (replace one 9 (1 ∷ replicate 19 0))
upkeep-IsBucket_example =
    upkeep-IsBucket 2 one 9 (node_at 2 3) (1 ∷ replicate 19 0)
      (record { nodes_bounded = omega arith; candidates_bounded = omega arith; sorted = (tt, tt) })

-- A bucket that is full with one node, and another one whose id parts from its id at the first bit.
abbrev packed : RoutingTable
packed = record (new 0 1) {
  store = record (Bucket.new 0 (Bitmap.new 0)) { nodes = node_at 1 5 ∷ [] } ∷ [];
}

packed-IsShaped : IsShaped packed
unfolding program Bitmap.new Bucket.new
packed-IsShaped =
    let place : IsPlace 0 packed.store 0 = (_, refl, refl, new-IsBitmap 0) in
    record { tree = place; cached = ((0, omega arith, place), tt) }

insert-IsShaped_example : InsertShaped (insert packed 9 (node_at 200 6))
insert-IsShaped_example = insert-IsShaped packed 9 (node_at 200 6) refl packed-IsShaped
