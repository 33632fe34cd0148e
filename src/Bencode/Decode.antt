-- ===== src/Bencode/Decode.antt =====
-- The decoder: every function reads `data` from index `i` and returns a value and the next index.
-- The recursion between items, lists and dictionaries takes fuel; `decode` gives 3 * len + 4.
use dht_spider.Prelude.{
  ℕ, zero, suc, ◌+◌, ◌*◌, ◌%◌, ◌^◌, ◌||◌, Option, none, some, Bytes, ltb, ◌==◌, if◌then◌else◌,
  length, get_elem?, take, drop, ◌-◌, [], ◌∷◌,
}
use mathlib.Core.Option
use dht_spider.Std.Utf8.{from_utf8, from_utf8_lossy}
use dht_spider.Std.Decimal.{ℤ, is_digit, parse_usize, parse_i64}
use dht_spider.Bencode.Value.{
  BVal, bytes, int, list, dict, Items, nil, Entries, empty, invalid, out_of_range, parse_int,
  Result, ok, err, out_of_fuel, ◌>>=◌, ok_or, push, insert,
}

-- `&data[from..to]`
abbrev pub slice : Bytes → ℕ → ℕ → Bytes
slice xs from to = take (to - from) (drop from xs)

-- `iter().position(|&c| c == target)`
unfoldable pub position : ℕ → Bytes → Option ℕ
position target [] = none
position target (c ∷ cs) = if c == target then some 0 else Option.map suc (position target cs)

unfoldable pub find : Bytes → ℕ → ℕ → Option ℕ
unfolding position
find input start target = Option.map (λ i. i + start) (position target (drop start input))

-- `std::str::from_utf8(s).ok().and_then(|s| s.parse().ok()).ok_or(ParseInt)`
abbrev pub parsed {ℓ} : {A : Type ℓ} → (Bytes → Option A) → Bytes → Result A
parsed parse s = ok_or parse_int (Option.bind (from_utf8 s) parse)

-- `colon + 1 + len` is computed in 64 bits, and wraps.
unfoldable pub string_at : Bytes → ℕ → ℕ → Result (Bytes × ℕ)
string_at input colon len =
    let end = (colon + 1 + len) % 2 ^ 64 in
    if ltb (length input) end || ltb end (colon + 1)
    then err out_of_range
    else ok (slice input (colon + 1) end, end)

unfoldable pub decode_string : Bytes → ℕ → Result (Bytes × ℕ)
unfolding string_at find Option.bind
decode_string input i = elim (get_elem? input i) [
  | none ↦ err (invalid "invalid string bencode")
  | some c ↦
      if is_digit c
      then (do
        colon ← ok_or (invalid ": not found") (find input i b':')
        len ← parsed parse_usize (slice input i colon)
        string_at input colon len)
      else err (invalid "invalid string bencode")
]

unfoldable pub decode_int : Bytes → ℕ → Result (ℤ × ℕ)
unfolding find Option.bind
decode_int input i = elim (get_elem? input i) [
  | none ↦ err (invalid "invalid int bencode")
  | some c ↦
      if c == b'i'
      then (do
        end ← ok_or (invalid "e not found") (find input (i + 1) b'e')
        num ← parsed parse_i64 (slice input (i + 1) end)
        ok (num, end + 1))
      else err (invalid "invalid int bencode")
]

unfoldable mutual
  pub decode_item : ℕ → Bytes → ℕ → Result (BVal × ℕ)
  decode_item zero input i = out_of_fuel
  decode_item (suc f) input i = elim (get_elem? input i) [
    | none ↦ err out_of_range
    | some c ↦
        let as_list = decode_list f input i >>= λ (v, j). ok (list v, j) in
        let as_dict = decode_dict f input i >>= λ (m, j). ok (dict m, j) in
        if c == b'l'
        then as_list
        else if c == b'd'
        then as_dict
        else if c == b'i'
        then (decode_int input i >>= λ (n, j). ok (int n, j))
        else if is_digit c
        then (decode_string input i >>= λ (s, j). ok (bytes s, j))
        else err (invalid "invalid item")
  ]

  pub decode_list : ℕ → Bytes → ℕ → Result (Items × ℕ)
  decode_list zero input i = out_of_fuel
  decode_list (suc f) input i = elim (get_elem? input i) [
    | none ↦ err (invalid "invalid list bencode")
    | some c ↦
        let rest = list_loop f input (i + 1) nil in
        if c == b'l' then rest else err (invalid "invalid list bencode")
  ]

  -- the `while` of `decode_list`
  pub list_loop : ℕ → Bytes → ℕ → Items → Result (Items × ℕ)
  list_loop zero input i out = out_of_fuel
  list_loop (suc f) input i out = elim (get_elem? input i) [
    | none ↦ err (invalid "list missing 'e'")
    | some c ↦
        let more = decode_item f input i >>= λ (v, j). list_loop f input j (push out v) in
        if c == b'e' then ok (out, i + 1) else more
  ]

  pub decode_dict : ℕ → Bytes → ℕ → Result (Entries × ℕ)
  decode_dict zero input i = out_of_fuel
  decode_dict (suc f) input i = elim (get_elem? input i) [
    | none ↦ err (invalid "invalid dict bencode")
    | some c ↦
        let rest = dict_loop f input (i + 1) empty in
        if c == b'd' then rest else err (invalid "invalid dict bencode")
  ]

  -- the `while` of `decode_dict`
  pub dict_loop : ℕ → Bytes → ℕ → Entries → Result (Entries × ℕ)
  dict_loop zero input i out = out_of_fuel
  dict_loop (suc f) input i out = elim (get_elem? input i) [
    | none ↦ err (invalid "dict missing 'e'")
    | some c ↦
        let more = decode_string input i >>= λ (k, j). elim (get_elem? input j) [
          | none ↦ err out_of_range
          | some _ ↦ decode_item f input j >>= λ (v, j2).
              dict_loop f input j2 (insert (from_utf8_lossy k) v out)
        ] in
        if c == b'e'
        then ok (out, i + 1)
        else if is_digit c
        then more
        else err (invalid "invalid dict key")
  ]

-- Three calls at most are made for each byte.
abbrev pub fuel_for : Bytes → ℕ
fuel_for input = 3 * length input + 4

unfoldable pub decode : Bytes → Result BVal
unfolding decode_item
decode input = decode_item (fuel_for input) input 0 >>= λ (v, _). ok v
