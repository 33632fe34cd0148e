-- ===== src/Routing/Queries.antt =====
-- `RoutingTable` of src/routing.rs: the neighbours of a target, and the upkeep of the table.
use mathlib.Core.Option
use dht_spider.Prelude.{
  ℕ, ◌+◌, ◌-◌, Bool, true, false, Option, none, some, List, [], ◌∷◌, ◌++◌, map, Bytes, length,
  get_elem?, take, ltb, if◌then◌else◌, Ordering,
}
use dht_spider.Std.Map as Map
use dht_spider.Std.Map.{bytes_Eq}
use dht_spider.Std.Sort.{sort_by}
use dht_spider.Std.Net.{SocketAddr}
use dht_spider.Std.Display.{addr_string}
use dht_spider.Util.{encode_compact_ip_port}
use dht_spider.Types.{Node}
use dht_spider.Bitmap.{from_bytes, xor, compare_prefix, ◌>>=◌}
use dht_spider.Routing.Bucket.{replace, random_child_id, sort_by_last_active}
use dht_spider.Routing.Tree.{Store, bucket_of, walk, modify, max_prefix}
use dht_spider.Routing.Table.{RoutingTable}

-- The comparison of two nodes by their distance from the target.
unfoldable pub distance_cmp : Bytes → Node → Node → Option Ordering
unfolding xor compare_prefix from_bytes
distance_cmp target a b = xor (from_bytes target) (from_bytes a.id) >>= λ da.
    xor (from_bytes target) (from_bytes b.id) >>= λ db. compare_prefix da db max_prefix

-- Ids and targets have twenty bytes, so that no comparison panics.
unfoldable pub no_farther : Bytes → Node → Node → Bool
unfolding distance_cmp
no_farther target a b = elim (distance_cmp target a b) [
  | none ↦ false
  | some o ↦ elim o [ Ordering.gt ↦ false | _ ↦ true ]
]

abbrev pub values : List (Bytes × Node) → List Node
values [] = []
values ((addr, n) ∷ m) = n ∷ values m

unfoldable pub neighbors_by_target : RoutingTable → Bytes → ℕ → List Node
unfolding sort_by no_farther
neighbors_by_target t target size =
    let list = sort_by (no_farther target) (values t.cached_nodes) in
    if ltb size (length list) then take size list else list

unfoldable pub neighbors : RoutingTable → ℕ → List Node
neighbors t limit = take limit (values t.cached_nodes)

unfoldable pub compact_list : List Node → Bytes
unfolding encode_compact_ip_port
compact_list [] = []
compact_list (n ∷ ns) =
    n.id ++ (Option.get_or (encode_compact_ip_port n.addr.ip n.addr.port) [] ++ compact_list ns)

unfoldable pub get_neighbors_compact : RoutingTable → Bytes → ℕ → Bytes
unfolding neighbors_by_target compact_list
get_neighbors_compact t target size = compact_list (neighbors_by_target t target size)

unfoldable pub remove_from_buckets : RoutingTable → ℕ → Bytes → RoutingTable
unfolding walk modify replace
remove_from_buckets t now id = elim (bucket_of (walk max_prefix 0 id t.root)) [
  | none ↦ t
  | some handle ↦ record t { store = modify handle (λ b. replace b now id) t.store }
]

unfoldable pub remove_by_addr : RoutingTable → ℕ → Bytes → RoutingTable
unfolding remove_from_buckets Map.get Map.remove
remove_by_addr t now addr = elim (Map.get addr t.cached_nodes) [
  | none ↦ t
  | some found ↦
      remove_from_buckets (record t { cached_nodes = Map.remove addr t.cached_nodes }) now found.id
]

-- The tasks of one bucket, with the addresses to clear.
abbrev pub bucket_tasks : Bytes → Bool → List Node → List (SocketAddr × Bytes) × List Bytes
bucket_tasks target is_crawl_mode nodes = (
  map (λ (n : Node). (n.addr, target)) nodes,
  if is_crawl_mode then map (λ (n : Node). addr_string n.addr) nodes else [],
)

abbrev pub is_empty : List Node → Bool
is_empty [] = true
is_empty (n ∷ ns) = false

-- The loop over the cached buckets; each bucket that is due takes the next of the random strings.
unfoldable pub plan :
    Store
    → ℕ
    → ℕ
    → ℕ
    → Bool
    → (ℕ → Bytes)
    → List ℕ
    → Option (List (SocketAddr × Bytes) × List Bytes)
unfolding random_child_id
plan store now expired_after refresh_node_num is_crawl_mode random [] = some ([], [])
plan store now expired_after refresh_node_num is_crawl_mode random (h ∷ hs) =
    let skipped = plan store now expired_after refresh_node_num is_crawl_mode random hs in
    let rest =
      plan store now expired_after refresh_node_num is_crawl_mode (λ i. random (i + 1)) hs in
    get_elem? store h >>= λ b.
    if is_empty b.nodes
    then skipped
    else if ltb (now - b.last_changed) expired_after
    then skipped
    else (random_child_id b (random 0) >>= λ target. rest >>= λ (tasks, clear_addrs).
        let (tasks', clear_addrs') =
          bucket_tasks target is_crawl_mode (take refresh_node_num b.nodes) in
        some (tasks' ++ tasks, clear_addrs' ++ clear_addrs))

unfoldable pub fresh_plan :
    RoutingTable → ℕ → ℕ → ℕ → Bool → (ℕ → Bytes) → Option (List (SocketAddr × Bytes) × List Bytes)
unfolding plan
fresh_plan t now kbucket_expired_after refresh_node_num is_crawl_mode random =
    plan t.store now kbucket_expired_after refresh_node_num is_crawl_mode random t.cached_buckets

abbrev pub is_stale : ℕ → ℕ → Node → Bool
is_stale now node_expired_after n = ltb node_expired_after (now - n.last_active)

unfoldable pub stale_addrs : ℕ → ℕ → List Node → List SocketAddr
stale_addrs now node_expired_after [] = []
stale_addrs now node_expired_after (n ∷ ns) =
    let rest = stale_addrs now node_expired_after ns in
    if is_stale now node_expired_after n then n.addr ∷ rest else rest

unfoldable pub expired_of : Store → ℕ → ℕ → List ℕ → Option (List SocketAddr)
unfolding stale_addrs
expired_of store now node_expired_after [] = some []
expired_of store now node_expired_after (h ∷ hs) = get_elem? store h >>= λ b.
    expired_of store now node_expired_after hs >>= λ rest.
    some (stale_addrs now node_expired_after b.nodes ++ rest)

unfoldable pub collect_expired_nodes : RoutingTable → ℕ → ℕ → Option (List SocketAddr)
unfolding expired_of
collect_expired_nodes t now node_expired_after =
    expired_of t.store now node_expired_after t.cached_buckets

unfoldable pub stale_keys : ℕ → ℕ → List (Bytes × Node) → List Bytes
stale_keys now node_expired_after [] = []
stale_keys now node_expired_after ((addr, n) ∷ m) =
    let rest = stale_keys now node_expired_after m in
    if is_stale now node_expired_after n then addr ∷ rest else rest

unfoldable pub remove_all : RoutingTable → ℕ → List Bytes → RoutingTable
unfolding remove_by_addr
remove_all t now [] = t
remove_all t now (addr ∷ addrs) = remove_all (remove_by_addr t now addr) now addrs

-- The second part of `prune`: the nodes that were active longest ago go first.
unfoldable pub enforce_max : RoutingTable → ℕ → ℕ → RoutingTable
unfolding remove_all sort_by_last_active
enforce_max t now max_nodes =
    let cur_len = length t.cached_nodes in
    if ltb max_nodes cur_len
    then remove_all t now (
        map (λ (n : Node). addr_string n.addr)
          (take (cur_len - max_nodes) (sort_by_last_active (values t.cached_nodes))))
    else t

unfoldable pub prune : RoutingTable → ℕ → ℕ → ℕ → RoutingTable
unfolding remove_all stale_keys enforce_max
prune t now node_expired_after max_nodes =
    enforce_max (remove_all t now (stale_keys now node_expired_after t.cached_nodes)) now max_nodes
