-- ===== src/Peers/Manager.antt =====
-- The manager's table: what an insertion changes for each info hash, and its invariant.
use mathlib.Core.Option
use dht_spider.Prelude.{
  ℕ, ◌≤◌, ◌≡◌, refl, Bool, not, ◌&&◌, List, [], ◌∷◌, ◌++◌, arith, Bytes, length, leb, if◌then◌else◌,
  Bool-cases, inl, inr,
}
use dht_spider.Std.Map as Map
use dht_spider.Std.Map.{
  bytes_Eq, IsMap, get-insert_self, get-insert_ne, length-insert, insert-IsMap,
}
use dht_spider.Std.Order.{bytes_eq, bytes_eq_iff}
use dht_spider.Types.{Peer}
use dht_spider.Peers.{PeersManager, max_infohashes, push_peer, insert, get}
use dht_spider.Peers.Queue.{without, latest, IsQueue, push_peer-latest, push_peer-IsQueue}

unfoldable pub queue : PeersManager → Bytes → List Peer
queue m ih = Option.get_or (Map.get ih m.table) []

-- The table is full, and the info hash is not in it.
unfoldable pub refuses : PeersManager → Bytes → Bool
refuses m ih = leb max_infohashes (length m.table) && not (Map.contains_key ih m.table)

abbrev pub AreQueues : ℕ → List (Bytes × List Peer) → Type 0
AreQueues k [] = Unit
AreQueues k ((ih, ps) ∷ m) = IsQueue k ps × AreQueues k m

pub record IsManager (m : PeersManager) : Type 0 where
  pub queues : AreQueues m.k m.table
  pub keys : IsMap m.table
  pub bounded : length m.table ≤ max_infohashes

IsQueue-empty : (k : ℕ) → IsQueue k []
IsQueue-empty k = record { bounded = omega arith; distinct = tt }

lookup-IsQueue :
    (k : ℕ) (ih : Bytes) (t : List (Bytes × List Peer))
    → AreQueues k t
    → IsQueue k (Option.get_or (Map.get ih t) [])
unfolding Map.get
lookup-IsQueue k ih [] h = IsQueue-empty k
lookup-IsQueue k ih ((j, ps) ∷ t) h = elim (Bool-cases (bytes_eq ih j)) [
  | inl e ↦ rw e h.0
  | inr e ↦ rw e (lookup-IsQueue k ih t h.1)
]

insert-AreQueues :
    (k : ℕ) (ih : Bytes) (ps : List Peer) (t : List (Bytes × List Peer))
    → IsQueue k ps
    → AreQueues k t
    → AreQueues k (Map.insert ih ps t)
unfolding Map.insert
insert-AreQueues k ih ps [] q h = (q, tt)
insert-AreQueues k ih ps ((j, qs) ∷ t) q h = elim (Bool-cases (bytes_eq ih j)) [
  | inl e ↦ rw (e, Map.insert) (q, h.1)
  | inr e ↦ rw (e, Map.insert) (h.0, insert-AreQueues k ih ps t q h.1)
]

-- An insertion keeps every queue within `k` peers and free of duplicates, and the table within its
-- bound.
pub insert-IsManager :
    (m : PeersManager) (ih : Bytes) (peer : Peer) → IsManager m → IsManager (insert m ih peer)
unfolding insert
insert-IsManager m ih peer h =
    elim (Bool-cases (leb max_infohashes (length m.table) && not (Map.contains_key ih m.table))) [
      | inl full ↦ rw full h
      | inr room ↦ rw room (record {
        queues =
            insert-AreQueues m.k ih _ m.table
              (push_peer-IsQueue m.k peer _ (lookup-IsQueue m.k ih m.table h.queues)) h.queues;
        keys = insert-IsMap ih _ m.table h.keys;
        bounded = ground (
          arith,
          length-insert ih (push_peer m.k peer (Option.get_or (Map.get ih m.table) [])) m.table,
          h.bounded,
        );
      })
    ]

-- After an insertion a lookup at the info hash gives, up to the number asked for, the latest `k` of
-- the peers, the new one last and listed once; every other info hash keeps its answer. Where the
-- table is full and the info hash is new, nothing changes at all.
pub get-insert :
    (m : PeersManager) (ih j : Bytes) (peer : Peer) (n : ℕ)
    → IsManager m
    → get (insert m ih peer) j n ≡ (
        if refuses m ih
        then get m j n
        else if bytes_eq j ih
        then latest n (latest m.k (without peer (queue m ih) ++ peer ∷ []))
        else get m j n)
unfolding insert get refuses queue
get-insert m ih j peer n h =
    elim (Bool-cases (leb max_infohashes (length m.table) && not (Map.contains_key ih m.table))) [
      | inl full ↦ rw full refl
      | inr room ↦ elim (Bool-cases (bytes_eq j ih)) [
        | inl here ↦
            let same = (bytes_eq_iff j ih).0 here in
            let distinct = (lookup-IsQueue m.k ih m.table h.queues).distinct in
            rw
              (
                room,
                here,
                same,
                get-insert_self ih (push_peer m.k peer (Option.get_or (Map.get ih m.table) []))
                    m.table,
                push_peer-latest m.k peer (Option.get_or (Map.get ih m.table) []) distinct,
              )
              refl
        | inr there ↦
            rw
              (
                room,
                there,
                get-insert_ne ih j (push_peer m.k peer (Option.get_or (Map.get ih m.table) []))
                    m.table there,
              )
              refl
      ]
    ]
