-- ===== src/Krpc/Tests.antt =====
-- Runs of the message builders, and the theorems at concrete messages.
use dht_spider.Prelude.{◌≡◌, refl, arith, codes, some}
use dht_spider.Std.Decimal.{pos, decimal, decimal_i64}
use dht_spider.Std.Order.{bytes_cmp}
use dht_spider.Bencode.Value.{BVal, bytes, dict, entry, empty, IsValue, get}
use dht_spider.Bencode.Encode.{display, encode}
use dht_spider.Types.{ok, ◌>>=◌}
use dht_spider.Krpc.{make_query, make_response, make_error, decode_value, parse_message}
use dht_spider.Krpc.Messages.{query, parse_message-make_query}
use dht_spider.Std.Utf8.{is_utf8}

program : Unit {0}
unfolding make_query make_response make_error encode bytes_cmp decimal decimal_i64
program = tt

abbrev target : BVal
target = dict (entry (codes "id") (bytes (codes "abc")) empty)

make_query_runs :
    make_query display (codes "x1") (codes "ping") target
    ≡ codes "d1:ad2:id3:abce1:q4:ping1:t2:x11:y1:qe"
unfolding program
make_query_runs = refl

make_error_runs :
    make_error display (codes "x1") (pos 203) (codes "bad") ≡ codes "d1:eli203e3:bade1:t2:x11:y1:ee"
unfolding program
make_error_runs = refl

target-IsValue : IsValue target
unfolding IsValue is_utf8
target-IsValue = ((refl, omega arith), omega arith, tt, tt)

parse_message-make_query_example :
    (decode_value (make_query display (codes "x1") (codes "ping") target) >>= parse_message
      ≡ ok (codes "x1", codes "q", query (codes "x1") (codes "ping") target))
    × (get (codes "q") (query (codes "x1") (codes "ping") target) ≡ some (bytes (codes "ping")))
    × (get (codes "a") (query (codes "x1") (codes "ping") target) ≡ some target)
unfolding program
parse_message-make_query_example =
    parse_message-make_query display (codes "x1") (codes "ping") target (omega arith) (omega arith)
      target-IsValue (omega arith)
