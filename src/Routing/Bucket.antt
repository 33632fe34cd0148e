-- ===== src/Routing/Bucket.antt =====
-- `KBucketInner` of src/routing.rs. `Instant`s are numbers, and the clock is an argument.
use mathlib.Core.Option
use dht_spider.Prelude as Prelude
use dht_spider.Prelude.{
  ℕ, zero, suc, ◌+◌, ◌-◌, ◌*◌, ◌/◌, ◌%◌, ◌^◌, bit_and, bit_or, Bool, true, false, Option, none,
  some, List, [], ◌∷◌, ◌++◌, Bytes, length, get_elem?, take, drop, ltb, leb, ◌==◌, if◌then◌else◌,
}
use dht_spider.Std.Order.{bytes_eq}
use dht_spider.Std.Sort.{sort_by}
use dht_spider.Types.{Node}
use dht_spider.Bitmap.{Bitmap, upto, ◌>>=◌}

pub record KBucketInner : Type 0 where
  pub nodes : List Node
  pub candidates : List Node
  pub prefix : Bitmap
  pub last_changed : ℕ

unfoldable pub new : ℕ → Bitmap → KBucketInner
new now prefix = record { nodes = []; candidates = []; prefix = prefix; last_changed = now }

abbrev pub touch : ℕ → KBucketInner → KBucketInner
touch now b = record b { last_changed = now }

abbrev pub no_later : Node → Node → Bool
no_later a b = leb a.last_active b.last_active

-- `sort_by_key(|n| n.last_active)`: a stable sort.
unfoldable pub sort_by_last_active : List Node → List Node
unfolding sort_by
sort_by_last_active ns = sort_by no_later ns

abbrev pub reorder_by_last_active : KBucketInner → KBucketInner
reorder_by_last_active b = record b { nodes = sort_by_last_active b.nodes }

-- `position(|n| n.id == id)`
unfoldable pub position : Bytes → List Node → Option ℕ
position id [] = none
position id (n ∷ ns) = if bytes_eq n.id id then some 0 else Option.map suc (position id ns)

unfoldable pub insert : KBucketInner → ℕ → Node → ℕ → Bool × KBucketInner
unfolding sort_by_last_active position
insert b now node k = elim (position node.id b.nodes) [
  | some pos ↦ (
    false,
    touch now (reorder_by_last_active (record b { nodes = Prelude.set b.nodes pos node })),
  )
  | none ↦
      if ltb (length b.nodes) k
      then (true, touch now (reorder_by_last_active (record b { nodes = b.nodes ++ node ∷ [] })))
      else (false, b)
]

abbrev pub pop_front : List Node → List Node
pop_front [] = []
pop_front (n ∷ ns) = ns

unfoldable pub add_candidate : KBucketInner → ℕ → Node → ℕ → KBucketInner
add_candidate b now node k =
    let candidates = b.candidates ++ node ∷ [] in
    touch now (record b {
      candidates = if ltb k (length candidates) then pop_front candidates else candidates;
    })

unfoldable pub remove_at : ℕ → List Node → List Node
remove_at i [] = []
remove_at zero (n ∷ ns) = ns
remove_at (suc i) (n ∷ ns) = n ∷ remove_at i ns

abbrev pub behind : Node → Option (Node × List Node) → Option (Node × List Node)
behind n none = some (n, [])
behind n (some (last, before)) = some (last, n ∷ before)

-- `VecDeque::pop_back`
unfoldable pub pop_back : List Node → Option (Node × List Node)
pop_back [] = none
pop_back (n ∷ ns) = behind n (pop_back ns)

abbrev pub take_candidate : Option (Node × List Node) → KBucketInner → KBucketInner
take_candidate none b = b
take_candidate (some (cand, candidates)) b =
    reorder_by_last_active (record b { nodes = b.nodes ++ cand ∷ []; candidates = candidates })

unfoldable pub replace : KBucketInner → ℕ → Bytes → KBucketInner
unfolding position remove_at pop_back sort_by_last_active
replace b now removed_id = elim (position removed_id b.nodes) [
  | none ↦ b
  | some pos ↦
      touch now
        (take_candidate (pop_back b.candidates) (record b { nodes = remove_at pos b.nodes }))
]

-- The bytes that `rng` gives are an argument: the first one for the byte that the prefix cuts,
-- where it cuts one, and the others for the bytes after it. `none`: an index out of range.
unfoldable pub random_child_id : KBucketInner → Bytes → Option Bytes
random_child_id b random =
    let full = b.prefix.size / 8 in
    let rem = b.prefix.size % 8 in
    let mask = 255 * 2 ^ (8 - rem) % 256 in
    upto full b.prefix.bytes >>= λ copied.
    if ltb 20 full
    then none
    else if rem == 0
    then some (copied ++ take (20 - full) random)
    else (get_elem? b.prefix.bytes full >>= λ cut. get_elem? random 0 >>= λ rbyte.
        if full == 20
        then none
        else some (
            copied
            ++ bit_or (bit_and cut mask) (bit_and rbyte (255 - mask))
              ∷ take (19 - full) (drop 1 random)))
