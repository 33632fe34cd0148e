-- ===== src/Peers.antt =====
-- src/peers.rs: for each info hash a queue of at most `k` peers, the latest at the end.
pub mod Queue
pub mod Manager
mod Tests
use mathlib.Core.Option
use dht_spider.Prelude.{
  ℕ, zero, suc, ◌-◌, Bool, true, false, not, ◌&&◌, Option, none, some, List, [], ◌∷◌, ◌++◌, Bytes,
  length, drop, ltb, leb, ◌==◌, if◌then◌else◌,
}
use dht_spider.Std.Net.{ip_eq}
use dht_spider.Std.Map as Map
use dht_spider.Std.Map.{bytes_Eq}
use dht_spider.Types.{Peer}

abbrev pub max_infohashes : ℕ
max_infohashes = 50000

pub record PeersManager : Type 0 where
  pub table : List (Bytes × List Peer)
  pub k : ℕ

unfoldable pub new : ℕ → PeersManager
new k = record { table = []; k = k }

-- `p.ip == peer.ip && p.port == peer.port`
unfoldable pub same : Peer → Peer → Bool
unfolding ip_eq
same p peer = ip_eq p.ip peer.ip && p.port == peer.port

unfoldable pub position : Peer → List Peer → Option ℕ
position peer [] = none
position peer (p ∷ ps) = if same p peer then some 0 else Option.map suc (position peer ps)

-- `VecDeque::remove`; an index past the end changes nothing.
unfoldable pub remove_at : ℕ → List Peer → List Peer
remove_at i [] = []
remove_at zero (p ∷ ps) = ps
remove_at (suc i) (p ∷ ps) = p ∷ remove_at i ps

-- `while entry.len() > k { entry.pop_front(); }`
unfoldable pub trim : ℕ → List Peer → List Peer
trim k [] = []
trim k (p ∷ ps) = if ltb k (length (p ∷ ps)) then trim k ps else p ∷ ps

abbrev drop_found : Option ℕ → List Peer → List Peer
drop_found none ps = ps
drop_found (some pos) ps = remove_at pos ps

-- What `insert` does to the queue of one info hash.
unfoldable pub push_peer : ℕ → Peer → List Peer → List Peer
unfolding position remove_at trim
push_peer k peer entry = trim k (drop_found (position peer entry) entry ++ peer ∷ [])

unfoldable pub insert : PeersManager → Bytes → Peer → PeersManager
unfolding push_peer Map.get Map.insert Map.contains_key
insert m ih peer =
    if leb max_infohashes (length m.table) && not (Map.contains_key ih m.table)
    then m
    else record m {
      table = Map.insert ih (push_peer m.k peer (Option.get_or (Map.get ih m.table) [])) m.table;
    }

-- The last `size` peers.
unfoldable pub get : PeersManager → Bytes → ℕ → List Peer
unfolding Map.get
get m ih size =
    Option.get_or (Option.map (λ (v : List Peer). drop (length v - size) v) (Map.get ih m.table)) []
