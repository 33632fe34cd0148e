-- ===== src/Peers/Tests.antt =====
-- Runs of the peers manager, and the theorems at concrete inputs.
use dht_spider.Prelude.{ℕ, ◌≡◌, refl, [], ◌∷◌, ◌++◌, none, arith, codes, if◌then◌else◌}
use dht_spider.Std.Net.{v4}
use dht_spider.Std.Order.{bytes_eq}
use dht_spider.Types.{Peer}
use dht_spider.Peers.{PeersManager, new, same, insert, get, push_peer}
use dht_spider.Peers.Queue.{latest, without, push_peer-latest}
use dht_spider.Peers.Manager.{queue, refuses, IsManager, get-insert}

program : Unit {0}
unfolding new insert get bytes_eq same
program = tt

abbrev peer_at : ℕ → Peer
peer_at port = record { ip = v4 10 0 0 1; port = port; token = none }

abbrev two : PeersManager
two = record { table = (codes "h", peer_at 1 ∷ peer_at 2 ∷ []) ∷ []; k = 2 }

insert_runs : insert (insert (new 2) (codes "h") (peer_at 1)) (codes "h") (peer_at 2) ≡ two
unfolding program
insert_runs = refl

insert_again : get (insert two (codes "h") (peer_at 1)) (codes "h") 5 ≡ peer_at 2 ∷ peer_at 1 ∷ []
unfolding program
insert_again = refl

insert_over : get (insert two (codes "h") (peer_at 3)) (codes "h") 1 ≡ peer_at 3 ∷ []
unfolding program
insert_over = refl

two-IsManager : IsManager two
unfolding program
two-IsManager = record {
  queues = (record { bounded = omega arith; distinct = (refl, (refl, tt)) }, tt);
  keys = (refl, tt);
  bounded = omega arith;
}

push_peer-latest_example :
    push_peer 2 (peer_at 1) (peer_at 1 ∷ peer_at 2 ∷ [])
    ≡ latest 2 (without (peer_at 1) (peer_at 1 ∷ peer_at 2 ∷ []) ++ peer_at 1 ∷ [])
unfolding program
push_peer-latest_example =
    push_peer-latest 2 (peer_at 1) (peer_at 1 ∷ peer_at 2 ∷ []) (refl, (refl, tt))

get-insert_example : get (insert two (codes "h") (peer_at 3)) (codes "h") 1 ≡ (
    if refuses two (codes "h")
    then get two (codes "h") 1
    else if bytes_eq (codes "h") (codes "h")
    then latest 1 (latest 2 (without (peer_at 3) (queue two (codes "h")) ++ peer_at 3 ∷ []))
    else get two (codes "h") 1)
get-insert_example = get-insert two (codes "h") (codes "h") (peer_at 3) 1 two-IsManager
