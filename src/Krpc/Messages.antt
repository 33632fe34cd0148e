-- ===== src/Krpc/Messages.antt =====
-- What one node sends another one reads, and the checks on a message's keys.
use dht_spider.Prelude.{
  ◌<◌, ◌^◌, ◌≡◌, ◌↔◌, refl, true, some, List, [], ◌∷◌, append-nil, arith, Bytes, codes, All, length,
  Bool-cases, inl, inr, Option-cases,
}
use dht_spider.Std.Decimal.{ℤ, IsI64}
use dht_spider.Std.Order.{bytes_cmp}
use dht_spider.Std.Utf8.{from_utf8, is_utf8}
use dht_spider.Types.{Result, ok, err, out_of_fuel, ◌>>=◌}
use dht_spider.Bencode.Value.{
  BVal, bytes, int, list, dict, nil, item, Entries, empty, entry, get, IsValue, IsMap,
}
use dht_spider.Bencode.Encode.{Itoa, encode}
use dht_spider.Bencode.RoundTrip.{decode-encode}
use dht_spider.Krpc.{
  make_query, make_response, make_error, decode_value, parse_message, parse_key, parse_keys,
  has_type,
}

-- The dictionary that a query carries, its keys in order.
abbrev pub query : Bytes → Bytes → BVal → Entries
query t q a = entry (codes "a") a (
    entry (codes "q") (bytes q)
      (entry (codes "t") (bytes t) (entry (codes "y") (bytes (codes "q")) empty)))

abbrev pub response : Bytes → BVal → Entries
response t r =
    entry (codes "r") r (entry (codes "t") (bytes t) (entry (codes "y") (bytes (codes "r")) empty))

abbrev pub failure : Bytes → ℤ → Bytes → Entries
failure t code msg =
    entry (codes "e") (list (item (int code) (item (bytes msg) nil)))
      (entry (codes "t") (bytes t) (entry (codes "y") (bytes (codes "e")) empty))

query-IsMap :
    (t q : Bytes) (a : BVal)
    → length t < 2 ^ 64
    → length q < 2 ^ 64
    → IsValue a
    → IsMap (query t q a)
unfolding IsValue bytes_cmp is_utf8
query-IsMap t q a ht hq ha = (
  (refl, omega arith),
  ha,
  (refl, (refl, (refl, tt))),
  (
    (refl, omega arith),
    hq,
    (refl, (refl, tt)),
    ((refl, omega arith), ht, (refl, tt), ((refl, omega arith), omega arith, tt, tt)),
  ),
)

response-IsMap : (t : Bytes) (r : BVal) → length t < 2 ^ 64 → IsValue r → IsMap (response t r)
unfolding IsValue bytes_cmp is_utf8
response-IsMap t r ht hr = (
  (refl, omega arith),
  hr,
  (refl, (refl, tt)),
  ((refl, omega arith), ht, (refl, tt), ((refl, omega arith), omega arith, tt, tt)),
)

failure-IsMap :
    (t : Bytes) (code : ℤ) (msg : Bytes)
    → length t < 2 ^ 64
    → IsI64 code
    → length msg < 2 ^ 64
    → IsMap (failure t code msg)
unfolding IsValue bytes_cmp is_utf8
failure-IsMap t code msg ht hc hm = (
  (refl, omega arith),
  (hc, (hm, tt)),
  (refl, (refl, tt)),
  ((refl, omega arith), ht, (refl, tt), ((refl, omega arith), omega arith, tt, tt)),
)

module _ (itoa : Itoa) where
  decode_value-encode :
      (m : Entries)
      → IsMap m
      → length (encode itoa (dict m)) < 2 ^ 64
      → decode_value (encode itoa (dict m)) ≡ ok (dict m)
  unfolding decode_value IsValue
  decode_value-encode m h k =
      let v : BVal = dict m in
      let e = append-nil (encode itoa v) in rw (rw e at (decode-encode itoa v [] h (rw e k))) refl

  -- A query arrives as it was sent: the receiver decodes it to the query's dictionary, with the
  -- transaction id, the kind, the method and the arguments of the sender.
  pub parse_message-make_query :
      (t q : Bytes) (a : BVal)
      → length t < 2 ^ 64
      → length q < 2 ^ 64
      → IsValue a
      → length (make_query itoa t q a) < 2 ^ 64
      → (decode_value (make_query itoa t q a) >>= parse_message ≡ ok (t, codes "q", query t q a))
        × (get (codes "q") (query t q a) ≡ some (bytes q))
        × (get (codes "a") (query t q a) ≡ some a)
  unfolding make_query parse_message bytes_cmp from_utf8
  parse_message-make_query t q a ht hq ha hl =
      (rw (decode_value-encode (query t q a) (query-IsMap t q a ht hq ha) hl) refl, refl, refl)

  -- A response arrives as it was sent, with its transaction id, its kind and its values.
  pub parse_message-make_response :
      (t : Bytes) (r : BVal)
      → length t < 2 ^ 64
      → IsValue r
      → length (make_response itoa t r) < 2 ^ 64
      → (decode_value (make_response itoa t r) >>= parse_message ≡ ok (t, codes "r", response t r))
        × (get (codes "r") (response t r) ≡ some r)
  unfolding make_response parse_message bytes_cmp from_utf8
  parse_message-make_response t r ht hr hl =
      (rw (decode_value-encode (response t r) (response-IsMap t r ht hr) hl) refl, refl)

  -- An error arrives as it was sent, with its transaction id, its kind, its code and its text.
  pub parse_message-make_error :
      (t : Bytes) (code : ℤ) (msg : Bytes)
      → length t < 2 ^ 64
      → IsI64 code
      → length msg < 2 ^ 64
      → length (make_error itoa t code msg) < 2 ^ 64
      → (decode_value (make_error itoa t code msg) >>= parse_message
          ≡ ok (t, codes "e", failure t code msg))
        × (get (codes "e") (failure t code msg)
            ≡ some (list (item (int code) (item (bytes msg) nil))))
  unfolding make_error parse_message bytes_cmp from_utf8
  parse_message-make_error t code msg ht hc hm hl = (
    rw (decode_value-encode (failure t code msg) (failure-IsMap t code msg ht hc hm) hl) refl,
    refl,
  )

-- The key is there, with a value of the named type.
abbrev pub Holds : Entries → Bytes × Bytes → Type 0
Holds m (k, t) = (v : BVal) × (get k m ≡ some v) × (has_type t v ≡ true)

Holds-parse_key : (m : Entries) (k t : Bytes) (v : BVal) → parse_key m k t ≡ ok v → Holds m (k, t)
unfolding parse_key
Holds-parse_key m k t v h = elim (Option-cases (get k m)) [
  | inl e ↦ cc (rw e at h)
  | inr (w, e) ↦ elim (Bool-cases (has_type t w)) [
    | inl good ↦ (w, e, good)
    | inr bad ↦ cc (rw (e, bad) at h)
  ]
]

parse_key-Holds : (m : Entries) (k t : Bytes) (h : Holds m (k, t)) → parse_key m k t ≡ ok h.0
unfolding parse_key
parse_key-Holds m k t (v, e, good) = rw (e, good)

parse_keys→All :
    (m : Entries) (pairs : List (Bytes × Bytes)) → parse_keys m pairs ≡ ok tt → All (Holds m) pairs
unfolding parse_keys
parse_keys→All m [] h = tt
parse_keys→All m ((k, t) ∷ pairs) h = first (parse_key m k t) refl h (parse_keys→All m pairs)
  where
    first :
        (r : Result BVal)
        → parse_key m k t ≡ r
        → (r >>= λ _. parse_keys m pairs) ≡ ok tt
        → (parse_keys m pairs ≡ ok tt → All (Holds m) pairs)
        → All (Holds m) ((k, t) ∷ pairs)
    first (ok v) e h' rest = (Holds-parse_key m k t v e, rest h')
    first (err x) e h' rest = cc
    first out_of_fuel e h' rest = cc

All→parse_keys :
    (m : Entries) (pairs : List (Bytes × Bytes)) → All (Holds m) pairs → parse_keys m pairs ≡ ok tt
unfolding parse_keys
All→parse_keys m [] h = refl
All→parse_keys m ((k, t) ∷ pairs) h = rw (parse_key-Holds m k t h.0) (All→parse_keys m pairs h.1)

-- The check of a message's keys passes exactly when each key is there with a value of its type.
parse_keys_iff :
    (m : Entries) (pairs : List (Bytes × Bytes))
    → (parse_keys m pairs ≡ ok tt) ↔ All (Holds m) pairs
parse_keys_iff m pairs = (parse_keys→All m pairs, All→parse_keys m pairs)
