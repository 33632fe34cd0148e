-- ===== src/BlackList/Tests.antt =====
-- Runs of the blacklist, and the theorems at concrete inputs.
use dht_spider.Prelude.{◌-◌, ◌≡◌, refl, [], ◌∷◌, none, some, true, false, arith, codes, ltb}
use dht_spider.Std.Decimal.{decimal}
use dht_spider.Std.Order.{bytes_eq}
use dht_spider.BlackList.{BlackList, new, insert, remove, contains, clear_expired, secs}
use dht_spider.BlackList.Laws.{contains-insert, contains_whole_ip}

program : Unit {0}
unfolding new insert remove contains clear_expired decimal bytes_eq
program = tt

abbrev one : BlackList
one = record { map = (codes "1.2.3.4:80", secs 5) ∷ []; max_size = 1; expiry = secs 3600 }

insert_runs : insert (new 1) (secs 5) (codes "1.2.3.4") (some 80) ≡ one
unfolding program
insert_runs = refl

insert_full : insert one (secs 6) (codes "1.2.3.5") none ≡ one
unfolding program
insert_full = refl

remove_runs : remove one (codes "1.2.3.4") (some 80) ≡ record one { map = [] }
unfolding program
remove_runs = refl

contains-insert_example :
    contains
      (insert (new 1) (secs 5) (codes "1.2.3.4") (some 80))
      (secs 10)
      (codes "1.2.3.4")
      (some 80)
    ≡ ltb (secs 10 - secs 5) (secs 3600)
unfolding program
contains-insert_example =
    contains-insert (new 1) (secs 5) (secs 10) (codes "1.2.3.4") 80 (omega arith) refl

abbrev whole : BlackList
whole = record { map = (codes "1.2.3.4", secs 5) ∷ []; max_size = 1; expiry = secs 3600 }

contains_whole_ip_example :
    (contains whole (secs 9000) (codes "1.2.3.4") none ≡ true)
    × (contains (clear_expired whole (secs 9000)) (secs 9000) (codes "1.2.3.4") none ≡ false)
unfolding program
contains_whole_ip_example =
    contains_whole_ip whole (secs 9000) (secs 5) (codes "1.2.3.4") (refl, tt) refl (omega arith)
