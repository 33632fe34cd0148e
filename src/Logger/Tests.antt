-- ===== src/Logger/Tests.antt =====
-- Runs of the logger.
use dht_spider.Prelude.{◌≡◌, refl, codes, false, none, some, ◌*◌, ◌+◌}
use dht_spider.Std.Decimal.{decimal}
use dht_spider.Std.Order.{bytes_eq}
use dht_spider.Logger.{new, log, hour_key, is_leap, month_of}

program : Unit {0}
unfolding new log hour_key is_leap month_of decimal bytes_eq
program = tt

-- 12:00 on 29 February 2024
leap_day : hour_key (19782 * 86400 + 43200) ≡ codes "0055-01--321_12"
unfolding program
leap_day = refl

-- 16 and 17 January 2024 have one name.
same_names : hour_key (19738 * 86400) ≡ hour_key (19739 * 86400)
unfolding program
same_names = refl

-- A file that stays open, and one that does not open.
log_runs :
    log (record { file = some (hour_key 7200) }) 7300 false (codes "line")
    ≡ (record { file = some (hour_key 7200) }, some (hour_key 7200, codes "line"))
unfolding program
log_runs = refl

log_fails : log new 7300 false (codes "line") ≡ (new, none)
unfolding program
log_fails = refl
