-- ===== src/Bencode/Tests.antt =====
-- Runs of the bencode modules, and the theorems at concrete inputs.
use dht_spider.Prelude.{◌≡◌, refl, ◌++◌, arith, codes}
use dht_spider.Std.Decimal.{pos, negsuc, parse_usize, parse_i64, decimal_i64}
use dht_spider.Std.Utf8.{from_utf8_lossy, from_utf8}
use dht_spider.Std.Order.{bytes_cmp}
use dht_spider.Bencode.Value.{
  insert, push, BVal, bytes, int, list, dict, nil, item, empty, entry, ok, err, out_of_range,
  parse_int, invalid, IsValue,
}
use dht_spider.Bencode.Decode.{decode, decode_string, decode_int}
use dht_spider.Bencode.Encode.{encode, display}
use dht_spider.Bencode.RoundTrip.{decode-encode}
use dht_spider.Bencode.Sound.{Yields, decode-Yields}

program : Unit {0}
unfolding decode decode_string decode_int parse_usize parse_i64 from_utf8_lossy from_utf8 bytes_cmp
    insert push encode decimal_i64
program = tt

-- { "a": [1, -2], "id": "xyz" }
abbrev sample : BVal
sample = dict (
    entry (codes "a") (list (item (int (pos 1)) (item (int (negsuc 1)) nil)))
      (entry (codes "id") (bytes (codes "xyz")) empty))

encode_runs : encode display sample ≡ codes "d1:ali1ei-2ee2:id3:xyze"
unfolding program
encode_runs = refl

decode_runs : decode (codes "d1:ali1ei-2ee2:id3:xyze") ≡ ok sample
unfolding program
decode_runs = refl

-- The keys are sorted, the later one of two equal keys wins, what follows is not read.
decode_unsorted :
    decode (codes "d2:bbi1e1:ai2e2:bbi3eetrailing")
    ≡ ok (dict (entry (codes "a") (int (pos 2)) (entry (codes "bb") (int (pos 3)) empty)))
unfolding program
decode_unsorted = refl

decode_short : decode (codes "5:abc") ≡ err out_of_range
unfolding program
decode_short = refl

decode_wraps : decode (codes "18446744073709551615:abc") ≡ err out_of_range
unfolding program
decode_wraps = refl

decode_large : decode (codes "i9223372036854775808e") ≡ err parse_int
unfolding program
decode_large = refl

decode_open_list : decode (codes "li1e") ≡ err (invalid "list missing 'e'")
unfolding program
decode_open_list = refl

sample-IsValue : IsValue sample
unfolding IsValue bytes_cmp from_utf8
sample-IsValue = (
  (refl, omega arith),
  (omega arith, (omega arith, tt)),
  (refl, tt),
  ((refl, omega arith), omega arith, tt, tt),
)

decode-encode_example : decode (encode display sample ++ codes "xx") ≡ ok sample
unfolding program
decode-encode_example = decode-encode display sample (codes "xx") sample-IsValue (omega arith)

decode-Yields_example : Yields IsValue (decode (codes "d1:ai1e"))
decode-Yields_example = decode-Yields (codes "d1:ai1e") (omega arith)
