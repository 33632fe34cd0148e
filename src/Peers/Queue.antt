-- ===== src/Peers/Queue.antt =====
-- A queue against its specification: the last `k` of the peers in order of their latest arrival.
use mathlib.Core.Option
use dht_spider.Prelude.{
  ℕ, zero, suc, ◌-◌, ◌≤◌, ◌≡◌, refl, ap, sym, ltb→lt, length-drop, true, false, Option, none, some,
  List, [], ◌∷◌, ◌++◌, arith, length, drop, ltb, if◌then◌else◌, Bool-cases, inl, inr,
}
use dht_spider.Std.Map.{bytes_Eq}
use dht_spider.Std.Net.{ip_eq→eq, ip_eq_refl}
use dht_spider.Types.{Peer}
use dht_spider.Peers.{same, position, remove_at, trim, drop_found, push_peer}

-- The specification: without the peer's earlier entries, the peer at the end, the last `k`.
pub without : Peer → List Peer → List Peer
without peer [] = []
without peer (p ∷ ps) = if same p peer then without peer ps else p ∷ without peer ps

abbrev pub latest : ℕ → List Peer → List Peer
latest k ps = drop (length ps - k) ps

-- No two entries with one address.
abbrev pub Absent : Peer → List Peer → Type 0
Absent peer ps = position peer ps ≡ none

abbrev pub AreDistinct : List Peer → Type 0
AreDistinct [] = Unit
AreDistinct (p ∷ ps) = Absent p ps × AreDistinct ps

trim-latest : (k : ℕ) (ps : List Peer) → trim k ps ≡ latest k ps
unfolding trim
trim-latest k [] = let e : 0 - k ≡ 0 = omega arith in rw e refl
trim-latest k (p ∷ ps) = elim (Bool-cases (ltb k (suc (length ps)))) [
  | inl more ↦
      let e : suc (length ps) - k ≡ suc (length ps - k) =
        omega (arith, ltb→lt k (suc (length ps)) more) in
      rw (more, e) (trim-latest k ps)
  | inr fits ↦ let e : suc (length ps) - k ≡ 0 = ground arith in rw (fits, e) refl
]

without-Absent : (peer : Peer) (ps : List Peer) → Absent peer ps → without peer ps ≡ ps
unfolding without position
without-Absent peer [] h = refl
without-Absent peer (p ∷ ps) h = ground (arith, without-Absent peer ps)

-- Two peers of one address are told from a third alike.
same_trans : (p peer q : Peer) → same p peer ≡ true → same q p ≡ same q peer
unfolding same
same_trans p peer q h =
    let ip : p.ip ≡ peer.ip = ip_eq→eq p.ip peer.ip (ground arith) in
    let port : p.port ≡ peer.port = ground arith in rw (ip, port)

Absent-same : (p peer : Peer) (ps : List Peer) → same p peer ≡ true → Absent p ps → Absent peer ps
unfolding position
Absent-same p peer [] s h = refl
Absent-same p peer (q ∷ ps) s h = ground (arith, same_trans p peer q s, Absent-same p peer ps s)

drop_found-without :
    (peer : Peer) (ps : List Peer)
    → AreDistinct ps
    → drop_found (position peer ps) ps ≡ without peer ps
unfolding position remove_at without
drop_found-without peer [] h = refl
drop_found-without peer (p ∷ ps) h = elim (Bool-cases (same p peer)) [
  | inl hit ↦ rw hit (sym (without-Absent peer ps (Absent-same p peer ps hit h.0)))
  | inr miss ↦ rw miss (miss_case (position peer ps) (drop_found-without peer ps h.1))
]
  where
    miss_case :
        (o : Option ℕ)
        → drop_found o ps ≡ without peer ps
        → drop_found (Option.map suc o) (p ∷ ps) ≡ p ∷ without peer ps
    miss_case none ih = ap (◌∷◌ p) ih
    miss_case (some i) ih = ap (◌∷◌ p) ih

-- One arrival leaves the last `k` of the other peers and the new one, in order of arrival.
pub push_peer-latest :
    (k : ℕ) (peer : Peer) (ps : List Peer)
    → AreDistinct ps
    → push_peer k peer ps ≡ latest k (without peer ps ++ peer ∷ [])
unfolding push_peer
push_peer-latest k peer ps h =
    rw (drop_found-without peer ps h) (trim-latest k (without peer ps ++ peer ∷ []))

Absent-append :
    (q : Peer) (ps : List Peer) (peer : Peer)
    → Absent q ps
    → same peer q ≡ false
    → Absent q (ps ++ peer ∷ [])
unfolding position
Absent-append q [] peer h e = rw e
Absent-append q (p ∷ ps) peer h e = ground (arith, Absent-append q ps peer)

Absent-without : (q peer : Peer) (ps : List Peer) → Absent q ps → Absent q (without peer ps)
unfolding position without
Absent-without q peer [] h = refl
Absent-without q peer (p ∷ ps) h = ground (arith, Absent-without q peer ps)

same_refl : (p : Peer) → same p p ≡ true
unfolding same
same_refl p = rw (ip_eq_refl p.ip) (ground arith)

same_sym : (p q : Peer) → same p q ≡ false → same q p ≡ false
same_sym p q h = elim (Bool-cases (same q p)) [
  | inl e ↦ cc (same_trans q p p e, same_refl p, h)
  | inr e ↦ e
]

AreDistinct-without :
    (peer : Peer) (ps : List Peer) → AreDistinct ps → AreDistinct (without peer ps ++ peer ∷ [])
unfolding without position
AreDistinct-without peer [] h = (refl, tt)
AreDistinct-without peer (p ∷ ps) h = elim (Bool-cases (same p peer)) [
  | inl hit ↦ rw (hit, without) (AreDistinct-without peer ps h.1)
  | inr miss ↦
      rw (miss, without)
        (
          Absent-append p (without peer ps) peer (Absent-without p peer ps h.0)
              (same_sym p peer miss),
          AreDistinct-without peer ps h.1,
        )
]

AreDistinct-drop : (n : ℕ) (ps : List Peer) → AreDistinct ps → AreDistinct (drop n ps)
AreDistinct-drop zero ps h = h
AreDistinct-drop (suc n) [] h = tt
AreDistinct-drop (suc n) (p ∷ ps) h = AreDistinct-drop n ps h.1

-- What the queues of the manager always are.
pub record IsQueue (k : ℕ) (ps : List Peer) : Type 0 where
  pub bounded : length ps ≤ k
  pub distinct : AreDistinct ps

pub push_peer-IsQueue :
    (k : ℕ) (peer : Peer) (ps : List Peer) → IsQueue k ps → IsQueue k (push_peer k peer ps)
push_peer-IsQueue k peer ps h =
    let all : List Peer = without peer ps ++ peer ∷ [] in
    rw (push_peer-latest k peer ps h.distinct) (record {
      bounded = omega (arith, length-drop (length all - k) all);
      distinct = AreDistinct-drop (length all - k) all (AreDistinct-without peer ps h.distinct);
    })
