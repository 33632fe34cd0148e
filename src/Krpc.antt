-- ===== src/Krpc.antt =====
-- src/krpc.rs: the messages of the protocol, built and taken apart as bencoded dictionaries.
pub mod Messages
mod Tests
use dht_spider.Prelude.{
  ℕ, Bool, true, false, ◌&&◌, Option, none, some, List, [], ◌∷◌, ◌++◌, Bytes, codes, if◌then◌else◌,
}
use dht_spider.Std.Decimal.{ℤ}
use dht_spider.Std.Order.{bytes_eq}
use dht_spider.Std.Utf8.{from_utf8}
use dht_spider.Types.{DhtError, bencode, Result, ok, err, out_of_fuel, ◌>>=◌}
use dht_spider.Bencode.Value as Value
use dht_spider.Bencode.Value.{
  BVal, bytes, int, list, dict, nil, item, Entries, BError, invalid, out_of_range, parse_int, get,
  dict_of,
}
use dht_spider.Bencode.Decode.{decode}
use dht_spider.Bencode.Encode.{Itoa, encode}

module _ (itoa : Itoa) where
  unfoldable pub make_query : Bytes → Bytes → BVal → Bytes
  unfolding dict_of
  make_query t q a = encode itoa (
      dict_of (
        (codes "t", bytes t)
        ∷ (codes "y", bytes (codes "q"))
        ∷ (codes "q", bytes q)
        ∷ (codes "a", a)
        ∷ []))

  unfoldable pub make_response : Bytes → BVal → Bytes
  unfolding dict_of
  make_response t r =
      encode itoa
        (dict_of ((codes "t", bytes t) ∷ (codes "y", bytes (codes "r")) ∷ (codes "r", r) ∷ []))

  unfoldable pub make_error : Bytes → ℤ → Bytes → Bytes
  unfolding dict_of
  make_error t code msg = encode itoa (
      dict_of (
        (codes "t", bytes t)
        ∷ (codes "y", bytes (codes "e"))
        ∷ (codes "e", list (item (int code) (item (bytes msg) nil)))
        ∷ []))

-- `{:?}` of a `BError`
abbrev debug : BError → Bytes
debug (invalid message) = codes "Invalid(" ++ b'"' ∷ (codes message ++ b'"' ∷ codes ")")
debug out_of_range = codes "OutOfRange"
debug parse_int = codes "ParseInt"

abbrev map_err : Value.Result BVal → Result BVal
map_err (Value.ok v) = ok v
map_err (Value.err e) = err (bencode (debug e))
map_err Value.out_of_fuel = out_of_fuel

unfoldable pub decode_value : Bytes → Result BVal
decode_value input = map_err (decode input)

abbrev bencode_err {ℓ} : {A : Type ℓ} → Bytes → Result A
bencode_err message = err (bencode message)

abbrev as_dict : BVal → Result Entries
as_dict (dict m) = ok m
as_dict _ = bencode_err (codes "response is not dict")

-- `dict.get(key).ok_or(missing)`, then the bytes of it
abbrev bytes_of : Bytes → Bytes → Option BVal → Result Bytes
bytes_of missing other none = bencode_err missing
bytes_of missing other (some (bytes b)) = ok b
bytes_of missing other (some _) = bencode_err other

abbrev utf8_or : Bytes → Option Bytes → Result Bytes
utf8_or message none = bencode_err message
utf8_or message (some s) = ok s

unfoldable pub parse_message : BVal → Result (Bytes × Bytes × Entries)
unfolding get
parse_message val = do
  m ← as_dict val
  t ← bytes_of (codes "lack of key t") (codes "invalid t") (get (codes "t") m)
  yb ← bytes_of (codes "lack of key y") (codes "invalid y") (get (codes "y") m)
  y ← utf8_or (codes "invalid y") (from_utf8 yb)
  ok (t, y, m)

abbrev has_type : Bytes → BVal → Bool
has_type t (bytes b) = bytes_eq t (codes "string")
has_type t (int n) = bytes_eq t (codes "int")
has_type t (dict m) = bytes_eq t (codes "map")
has_type t (list l) = bytes_eq t (codes "list")

abbrev present : Option BVal → Result BVal
present none = bencode_err (codes "lack of key")
present (some v) = ok v

unfoldable pub parse_key : Entries → Bytes → Bytes → Result BVal
parse_key m key t = do
  v ← present (get key m)
  if has_type t v then ok v else bencode_err (codes "invalid key type")

unfoldable pub parse_keys : Entries → List (Bytes × Bytes) → Result (Unit {0})
parse_keys m [] = ok tt
parse_keys m ((k, t) ∷ pairs) = parse_key m k t >>= λ _. parse_keys m pairs
