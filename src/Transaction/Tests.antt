-- ===== src/Transaction/Tests.antt =====
-- Runs of the transaction manager, and the theorems at concrete inputs.
use dht_spider.Prelude.{◌*◌, ◌^◌, ◌≡◌, ◌≢◌, refl, [], ◌∷◌, none, true, false, arith, codes, length}
use dht_spider.Std.Net.{v4}
use dht_spider.Std.Display.{addr_string, ip_string}
use dht_spider.Std.Decimal.{decimal, digits}
use dht_spider.Std.Order.{bytes_eq}
use dht_spider.Std.Map as Map
use dht_spider.Util.{int2bytes, low_bytes, first_nonzero}
use dht_spider.Transaction.{
  Transaction, TransactionManager, new, gen_id, insert, get_by_trans_id, get_by_index,
  finish_by_trans_id, scan_timeouts, scan, is_due, wait_secs, mark_retry,
}
use dht_spider.Transaction.Ids.{gen_id-ne, draw}
use dht_spider.Transaction.Table.{get-finish_by_trans_id, finish_by_trans_id-insert}
use dht_spider.Transaction.Timeouts.{listed, listed-scan_timeouts}

program : Unit {0}
unfolding new gen_id insert get_by_trans_id get_by_index finish_by_trans_id scan_timeouts scan
    is_due wait_secs mark_retry bytes_eq addr_string ip_string decimal digits int2bytes low_bytes
    first_nonzero draw listed
program = tt

abbrev ping : Transaction
ping = record {
  trans_id_bytes = 1 ∷ [];
  addr = record { ip = v4 10 0 0 1; port = 6881 };
  qtype = codes "ping";
  responder = true;
  info_hash = none;
  target = none;
  announce_port = none;
  announce_implied_port = false;
  created_at = 0;
  retries = 1;
}

abbrev sent : TransactionManager
sent = record {
  cursor = 2;
  max_cursor = 65536;
  map = (1 ∷ [], ping) ∷ [];
  index = (codes "ping:10.0.0.1:6881", 1 ∷ []) ∷ [];
}

abbrev fresh : TransactionManager
fresh = record { cursor = 2; max_cursor = 65536; map = []; index = [] }

insert_runs : insert fresh ping ≡ (true, sent)
unfolding program
insert_runs = refl

gen_id_runs : (gen_id (record fresh { cursor = 65537 })).0 ≡ 1 ∷ []
unfolding program
gen_id_runs = refl

scan_runs : scan_timeouts sent (2 * 10 ^ 9) 1 3 ≡ (ping ∷ [], [])
unfolding program
scan_runs = refl

gen_id-ne_example : (gen_id (draw 0 fresh)).0 ≢ (gen_id (draw 9 fresh)).0
gen_id-ne_example = gen_id-ne fresh 0 9 (omega arith) (omega arith) (omega arith) (omega arith)

get-finish_by_trans_id_example :
    get_by_trans_id (finish_by_trans_id sent (1 ∷ [])).1 (1 ∷ []) ≡ none
unfolding program
get-finish_by_trans_id_example =
    (get-finish_by_trans_id sent (1 ∷ []) (1 ∷ []) (codes "ping") (codes "10.0.0.1:6881")).0

finish_by_trans_id-insert_example :
    ((finish_by_trans_id (insert fresh ping).1 (1 ∷ [])).1.map ≡ [])
    × (length (finish_by_trans_id (insert fresh ping).1 (1 ∷ [])).1.index ≡ 1)
unfolding program Map.contains_key
finish_by_trans_id-insert_example = finish_by_trans_id-insert fresh ping (omega arith) refl refl

listed-scan_timeouts_example : listed (1 ∷ []) (scan_timeouts sent (2 * 10 ^ 9) 1 1).1 ≡ true
unfolding program Map.contains_key
listed-scan_timeouts_example = listed-scan_timeouts sent (2 * 10 ^ 9) 1 1 (1 ∷ []) (refl, tt)
