-- ===== src/Routing/Shape.antt =====
-- The shape of the tree: a leaf has a bucket, whose prefix is as long as the leaf is deep, and a
-- branch has two children and no bucket.
use dht_spider.Prelude as Prelude
use dht_spider.Prelude.{
  ℕ, zero, suc, ◌+◌, ◌<◌, ◌≤◌, ◌≡◌, refl, sym, ap, ◌∙◌, Bool, true, false, Option, none, some, List,
  [], ◌∷◌, ◌++◌, All, All-weaken, arith, Bytes, length, length-set, get_elem?, leb, ◌==◌,
  Bool-cases, inl, inr,
}
use dht_spider.Bitmap.Laws.{IsBitmap, bit-extend_one}
use dht_spider.Routing.Bucket.{KBucketInner, new}
use dht_spider.Routing.Tree.{
  RoutingNode, routing_node, no_child, child_at, Store, leaf, split, share, max_prefix,
}

-- A bucket with a prefix of so many bits.
abbrev pub IsPlace : ℕ → Store → ℕ → Type 0
IsPlace n s h =
    (b : KBucketInner) × (get_elem? s h ≡ some b) × (b.prefix.size ≡ n) × IsBitmap b.prefix

abbrev pub IsTree : ℕ → Store → RoutingNode → Type 0
IsTree n s (routing_node no_child no_child (some h)) = IsPlace n s h
IsTree n s (routing_node no_child no_child none) = ⊥
IsTree n s (routing_node (child_at left) (child_at right) none) =
    IsTree (suc n) s left × IsTree (suc n) s right
IsTree n s (routing_node (child_at left) (child_at right) (some h)) = ⊥
IsTree n s (routing_node no_child (child_at right) b) = ⊥
IsTree n s (routing_node (child_at left) no_child b) = ⊥

-- A bucket that the table keeps in its list.
abbrev pub IsCached : Store → ℕ → Type 0
IsCached s h = (n : ℕ) × (n ≤ max_prefix) × IsPlace n s h

-- No bucket goes away or changes its prefix.
abbrev pub Extends : Store → Store → Type 0
Extends s s' =
    (h : ℕ) (b : KBucketInner)
    → get_elem? s h ≡ some b
    → (b' : KBucketInner) × (get_elem? s' h ≡ some b') × (b'.prefix ≡ b.prefix)

pub refl-Extends : (s : Store) → Extends s s
refl-Extends s h b e = (b, e, refl)

pub trans-Extends : (s s' s2 : Store) → Extends s s' → Extends s' s2 → Extends s s2
trans-Extends s s' s2 f g h b e =
    let (b', e', same) = f h b e in let (b2, e2, same2) = g h b' e' in (b2, e2, same2 ∙ same)

pub set-Extends :
    (s : Store) (h : ℕ) (b b' : KBucketInner)
    → get_elem? s h ≡ some b
    → b'.prefix ≡ b.prefix
    → Extends s (Prelude.set s h b')
set-Extends [] h b b' e same j c f = absurd (ground (arith, f))
set-Extends (x ∷ s) zero b b' e same zero c f =
    (b', refl, let here : b ≡ c = cc (e, f) in same ∙ ap (λ (k : KBucketInner). k.prefix) here)
set-Extends (x ∷ s) zero b b' e same (suc j) c f = (c, f, refl)
set-Extends (x ∷ s) (suc h) b b' e same zero c f = (c, f, refl)
set-Extends (x ∷ s) (suc h) b b' e same (suc j) c f = set-Extends s h b b' e same j c f

pub append-Extends : (s s' : Store) → Extends s (s ++ s')
append-Extends [] s' h b e = absurd (ground (arith, e))
append-Extends (x ∷ s) s' zero b e = (b, e, refl)
append-Extends (x ∷ s) s' (suc h) b e = append-Extends s s' h b e

get_elem?-append :
    (s : Store) (a b : KBucketInner)
    → (get_elem? (s ++ a ∷ b ∷ []) (length s) ≡ some a)
      × (get_elem? (s ++ a ∷ b ∷ []) (suc (length s)) ≡ some b)
get_elem?-append [] a b = (refl, refl)
get_elem?-append (x ∷ s) a b = get_elem?-append s a b

pub IsPlace-Extends : (n h : ℕ) (s s' : Store) → Extends s s' → IsPlace n s h → IsPlace n s' h
IsPlace-Extends n h s s' f (b, e, size, bitmap) =
    let (b', e', same) = f h b e in (b', e', rw same size, rw same bitmap)

pub IsTree-Extends :
    (n : ℕ) (s s' : Store) (t : RoutingNode) → Extends s s' → IsTree n s t → IsTree n s' t
IsTree-Extends n s s' (routing_node no_child no_child (some h)) f k = IsPlace-Extends n h s s' f k
IsTree-Extends n s s' (routing_node no_child no_child none) f k = absurd k
IsTree-Extends n s s' (routing_node (child_at left) (child_at right) none) f k =
    (IsTree-Extends (suc n) s s' left f k.0, IsTree-Extends (suc n) s s' right f k.1)
IsTree-Extends n s s' (routing_node (child_at left) (child_at right) (some h)) f k = absurd k
IsTree-Extends n s s' (routing_node no_child (child_at right) b) f k = absurd k
IsTree-Extends n s s' (routing_node (child_at left) no_child b) f k = absurd k

pub IsCached-Extends :
    (s s' : Store) (hs : List ℕ) → Extends s s' → All (IsCached s) hs → All (IsCached s') hs
IsCached-Extends s s' hs f k =
    All-weaken (IsCached s) (IsCached s') hs
      (λ h (n, le, place). (n, le, IsPlace-Extends n h s s' f place)) k

-- A leaf above the last level is split into two.
pub split-IsTree :
    (now n h : ℕ) (s : Store)
    → n < max_prefix
    → IsPlace n s h
    → (s' : Store) × (split now (leaf h) s
        ≡ some
            (routing_node (child_at (leaf (length s))) (child_at (leaf (length s + 1))) none, s'))
      × Extends s s'
      × IsPlace (suc n) s' (length s)
      × IsPlace (suc n) s' (length s + 1)
unfolding split share new
split-IsTree now n h s few (b, e, size, bitmap) =
    let (left, el, bl, sl, xl) = bit-extend_one b.prefix 0 bitmap (omega arith) in
    let (right, er, br, sr, xr) = bit-extend_one b.prefix 1 bitmap (omega arith) in
    let shallow : leb max_prefix b.prefix.size ≡ false = ground arith in
    let emptied : KBucketInner = record b { nodes = []; candidates = [] } in
    let halves =
      get_elem?-append (Prelude.set s h emptied) (share now 0 b left) (share now 1 b right) in
    let len = length-set s h emptied in
    let s' = Prelude.set s h emptied ++ share now 0 b left ∷ share now 1 b right ∷ [] in
    let next : length s + 1 ≡ suc (length (Prelude.set s h emptied)) = omega (arith, len) in
    (
      s',
      rw (e, shallow, el, er) refl,
      trans-Extends s (Prelude.set s h emptied) s' (set-Extends s h b emptied e refl)
          (append-Extends (Prelude.set s h emptied) _),
      (share now 0 b left, rw (← len) halves.0, omega (arith, sl, size), bl),
      (share now 1 b right, rw next halves.1, omega (arith, sr, size), br),
    )
