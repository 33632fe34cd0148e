-- ===== src/Dht/Bans.antt =====
-- A node that was given up is not listened to any more.
use dht_spider.Prelude.{
  ℕ, ◌-◌, ◌<◌, ◌≡◌, refl, false, none, some, Bytes, codes, length, lt→ltb, if◌then◌else◌,
  Bool-cases, inl, inr,
}
use dht_spider.Std.Display.{ip_string, addr_string}
use dht_spider.Std.Order.{bytes_eq}
use dht_spider.Std.Map as Map
use dht_spider.Std.Map.{bytes_Eq, get-remove_self}
use dht_spider.BlackList.Laws.{contains-insert}
use dht_spider.Transaction.{Transaction, get_by_trans_id, finish_by_trans_id}
use dht_spider.Routing.Queries.{remove_by_addr}
use dht_spider.Dht.{Dht, Outside, quiet}
use dht_spider.Dht.Tick.{give_up_run, give_up_start, ban, forget}
use dht_spider.Dht.Response.{handle_packet}

-- A transaction is given up while the blacklist has room and the IP is not blocked as a whole. In
-- the loop of `run`, and in that of `start` where it is no ping, its address is blocked then: the
-- transaction is gone afterwards, nothing is sent, and every packet from the address is dropped
-- without an effect until the entry expires. A ping that `start` gives up leads to no such entry:
-- its address leaves the routing table, and the transaction is gone too.
pub handle_packet-give_up :
    (o : Outside) (d : Dht) (t : Transaction) (now now' : ℕ) (tid random input : Bytes)
    → get_by_trans_id d.trans tid ≡ some t
    → length d.blacklist.map < d.blacklist.max_size
    → Map.contains_key (ip_string t.addr.ip) d.blacklist.map ≡ false
    → now' - now < d.blacklist.expiry
    → let d' = forget tid (ban now t.addr d) in
      let dropped : Dht =
        forget tid (record d { routing = remove_by_addr d.routing now (addr_string t.addr) }) in
      (give_up_run now d tid ≡ quiet d')
      × (give_up_start now d tid
          ≡ (if bytes_eq t.qtype (codes "ping") then quiet dropped else quiet d'))
      × (get_by_trans_id d'.trans tid ≡ none)
      × (get_by_trans_id dropped.trans tid ≡ none)
      × (handle_packet o now' random input t.addr d' ≡ quiet d')
unfolding give_up_run give_up_start handle_packet get_by_trans_id finish_by_trans_id
handle_packet-give_up o d t now now' tid random input found room free early =
    let live = lt→ltb (now' - now) d.blacklist.expiry early in
    let blocked =
      contains-insert d.blacklist now now' (ip_string t.addr.ip) t.addr.port room free in
    let gone = get-remove_self tid d.trans.map in
    (
      rw found refl,
      elim (Bool-cases (bytes_eq t.qtype (codes "ping"))) [
        | inl ping ↦ rw (found, ping) refl
        | inr other ↦ rw (found, other) refl
      ],
      gone,
      gone,
      rw (blocked, live) refl,
    )
