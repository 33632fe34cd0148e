-- ===== src/Routing/Cache.antt =====
-- The table of nodes by address: what the removals do to it, and lists of nodes whose addresses
-- differ.
use dht_spider.Prelude.{
  length, ℕ, zero, suc, ◌≡◌, refl, sym, ap, ◌∙◌, Bool, false, Option, none, some, List, [], ◌∷◌,
  map, arith, Bytes, All, take, Bool-cases, Option-cases, inl, inr,
}
use dht_spider.Std.Order.{bytes_eq, bytes_eq_iff}
use dht_spider.Std.Display.{addr_string}
use dht_spider.Std.Map as Map
use dht_spider.Std.Map.{
  bytes_Eq, IsMap, beq_false_sym, remove_absent, remove-IsMap, get-absent, contains_key-get,
}
use dht_spider.Std.Removal.{remove_each, member, AreApart}
use dht_spider.Std.Sort as Sort
use dht_spider.Std.Sort.{sort_by, place-All, sort_by-All, length-sort_by}
use dht_spider.Types.{Node}
use dht_spider.Routing.Bucket.{no_later}
use dht_spider.Routing.Tree.{walk, bucket_of, max_prefix}
use dht_spider.Routing.Table.{RoutingTable}
use dht_spider.Routing.Queries.{
  values, remove_from_buckets, remove_by_addr, remove_all, is_stale, stale_keys,
}

abbrev pub key : Node → Bytes
key n = addr_string n.addr

abbrev pub IsKeyed : List (Bytes × Node) → Type 0
IsKeyed [] = Unit
IsKeyed ((addr, n) ∷ m) = (addr ≡ key n) × IsKeyed m

abbrev pub HasId : Node → Type 0
HasId n = length n.id ≡ 20

-- Each node once, under the text of its address, with an id of twenty bytes.
pub record IsCache (m : List (Bytes × Node)) : Type 0 where
  pub keyed : IsKeyed m
  pub ids : All HasId (values m)
  pub keys : IsMap m

cached-remove_from_buckets :
    (t : RoutingTable) (now : ℕ) (id : Bytes)
    → (remove_from_buckets t now id).cached_nodes ≡ t.cached_nodes
unfolding remove_from_buckets
cached-remove_from_buckets t now id =
    elim (Option-cases (bucket_of (walk max_prefix 0 id t.root))) [
      | inl e ↦ rw e refl
      | inr (handle, e) ↦ rw e refl
    ]

pub cached-remove_by_addr :
    (t : RoutingTable) (now : ℕ) (addr : Bytes)
    → (remove_by_addr t now addr).cached_nodes ≡ Map.remove addr t.cached_nodes
unfolding remove_by_addr
cached-remove_by_addr t now addr = elim (Option-cases (Map.get addr t.cached_nodes)) [
  | inl e ↦
      let absent : Map.contains_key addr t.cached_nodes ≡ false =
        contains_key-get addr t.cached_nodes ∙ (rw e refl) in
      rw (remove_by_addr, e) (sym (remove_absent addr t.cached_nodes absent))
  | inr (n, e) ↦
      rw (remove_by_addr, e)
        (cached-remove_from_buckets (record t { cached_nodes = Map.remove addr t.cached_nodes }) now
          n.id)
]

pub cached-remove_all :
    (t : RoutingTable) (now : ℕ) (addrs : List Bytes)
    → (remove_all t now addrs).cached_nodes ≡ remove_each addrs t.cached_nodes
unfolding remove_all remove_each
cached-remove_all t now [] = refl
cached-remove_all t now (a ∷ rest) =
    cached-remove_all (remove_by_addr t now a) now rest
    ∙ ap (remove_each rest) (cached-remove_by_addr t now a)

abbrev pub stale_entry : ℕ → ℕ → Option Node → Bool
stale_entry now expired none = false
stale_entry now expired (some n) = is_stale now expired n

pub member-stale_keys :
    (now expired : ℕ) (addr : Bytes) (m : List (Bytes × Node))
    → IsMap m
    → member addr (stale_keys now expired m) ≡ stale_entry now expired (Map.get addr m)
unfolding member stale_keys Map.get
member-stale_keys now expired addr [] h = refl
member-stale_keys now expired addr ((a, n) ∷ m) h = elim (Bool-cases (bytes_eq addr a)) [
  | inl e ↦
      let same = (bytes_eq_iff addr a).0 e in
      let absent : Map.get addr m ≡ none = get-absent addr m (rw same h.0) in
      ground (arith, member-stale_keys now expired addr m h.1)
  | inr e ↦ ground (arith, member-stale_keys now expired addr m h.1)
]

pub remove-IsKeyed : (k : Bytes) (m : List (Bytes × Node)) → IsKeyed m → IsKeyed (Map.remove k m)
unfolding Map.remove
remove-IsKeyed k [] h = tt
remove-IsKeyed k ((a, n) ∷ m) h = elim (Bool-cases (bytes_eq k a)) [
  | inl e ↦ rw (e, Map.remove) (remove-IsKeyed k m h.1)
  | inr e ↦ rw (e, Map.remove) (h.0, remove-IsKeyed k m h.1)
]

pub remove-All :
    (k : Bytes) (m : List (Bytes × Node))
    → All HasId (values m)
    → All HasId (values (Map.remove k m))
unfolding Map.remove
remove-All k [] h = tt
remove-All k ((a, n) ∷ m) h = elim (Bool-cases (bytes_eq k a)) [
  | inl e ↦ rw (e, Map.remove) (remove-All k m h.1)
  | inr e ↦ rw (e, Map.remove) (h.0, remove-All k m h.1)
]

pub remove_each-IsCache :
    (ks : List Bytes) (m : List (Bytes × Node)) → IsCache m → IsCache (remove_each ks m)
unfolding remove_each
remove_each-IsCache [] m h = h
remove_each-IsCache (k ∷ ks) m h = remove_each-IsCache ks (Map.remove k m) (record {
  ids = remove-All k m h.ids;
  keyed = remove-IsKeyed k m h.keyed;
  keys = remove-IsMap k m h.keys;
})

-- Nodes whose addresses differ.
abbrev pub Apart : List Node → Type 0
Apart [] = Unit
Apart (n ∷ ns) = All (λ (x : Node). bytes_eq (key x) (key n) ≡ false) ns × Apart ns

place-Apart :
    (n : Node) (ns : List Node)
    → All (λ (x : Node). bytes_eq (key x) (key n) ≡ false) ns
    → Apart ns
    → Apart (Sort.place no_later n ns)
unfolding Sort.place
place-Apart n [] h a = (tt, tt)
place-Apart n (x ∷ xs) h a = elim (Bool-cases (no_later n x)) [
  | inl e ↦ rw (e, Sort.place) (h, a)
  | inr e ↦
      rw (e, Sort.place)
        (
          place-All no_later (λ (y : Node). bytes_eq (key y) (key x) ≡ false) n xs
              (beq_false_sym (key x) (key n) h.0) a.0,
          place-Apart n xs h.1 a.1,
        )
]

pub sort_by-Apart : (ns : List Node) → Apart ns → Apart (sort_by no_later ns)
unfolding sort_by
sort_by-Apart [] a = tt
sort_by-Apart (n ∷ ns) a =
    place-Apart n (sort_by no_later ns)
      (sort_by-All no_later (λ (x : Node). bytes_eq (key x) (key n) ≡ false) ns a.0)
      (sort_by-Apart ns a.1)

pub take-All {κ} : (P : Node → Type κ) (i : ℕ) (ns : List Node) → All P ns → All P (take i ns)
take-All P zero ns h = tt
take-All P (suc i) [] h = tt
take-All P (suc i) (n ∷ ns) h = (h.0, take-All P i ns h.1)

pub take-Apart : (i : ℕ) (ns : List Node) → Apart ns → Apart (take i ns)
take-Apart zero ns h = tt
take-Apart (suc i) [] h = tt
take-Apart (suc i) (n ∷ ns) h = (take-All _ i ns h.0, take-Apart i ns h.1)

pub map-All :
    (P : Bytes → Type 0) (ns : List Node) → All (λ (n : Node). P (key n)) ns → All P (map key ns)
map-All P [] h = tt
map-All P (n ∷ ns) h = (h.0, map-All P ns h.1)

pub map-AreApart : (ns : List Node) → Apart ns → AreApart (map key ns)
map-AreApart [] h = tt
map-AreApart (n ∷ ns) h = (map-All _ ns h.0, map-AreApart ns h.1)
