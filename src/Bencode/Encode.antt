-- ===== src/Bencode/Encode.antt =====
-- The encoder. `itoa`, the crate that prints numbers, is a parameter: it prints what `Display`
-- does.
use dht_spider.Prelude.{ℕ, ◌<◌, ◌^◌, ◌≡◌, refl, [], ◌∷◌, ◌++◌, Bytes, length}
use dht_spider.Std.Decimal.{ℤ, IsI64, decimal, decimal_i64}
use dht_spider.Bencode.Value.{BVal, bytes, int, list, dict, Items, nil, item, Entries, empty, entry}

pub record Itoa : Type 0 where
  pub format_usize : ℕ → Bytes
  pub format_i64 : ℤ → Bytes
  pub format_usize_lem : (n : ℕ) → n < 2 ^ 64 → format_usize n ≡ decimal n
  pub format_i64_lem : (n : ℤ) → IsI64 n → format_i64 n ≡ decimal_i64 n

-- A printer as the crate documents it.
abbrev pub display : Itoa
display = record {
  format_usize = decimal;
  format_i64 = decimal_i64;
  format_usize_lem = λ n h. refl;
  format_i64_lem = λ n h. refl;
}

module _ (itoa : Itoa) where
  unfoldable pub encode_bytes : Bytes → Bytes → Bytes
  encode_bytes buf s = ((buf ++ itoa.format_usize (length s)) ++ b':' ∷ []) ++ s

  unfoldable pub encode_int : Bytes → ℤ → Bytes
  encode_int buf n = ((buf ++ b'i' ∷ []) ++ itoa.format_i64 n) ++ b'e' ∷ []

  -- Each function returns the buffer that it has extended.
  unfoldable mutual
    pub encode_item_to : Bytes → BVal → Bytes
    encode_item_to buf (bytes b) = encode_bytes buf b
    encode_item_to buf (int n) = encode_int buf n
    encode_item_to buf (list l) = encode_items_to (buf ++ b'l' ∷ []) l ++ b'e' ∷ []
    encode_item_to buf (dict m) = encode_entries_to (buf ++ b'd' ∷ []) m ++ b'e' ∷ []

    -- `for it in l`
    pub encode_items_to : Bytes → Items → Bytes
    encode_items_to buf nil = buf
    encode_items_to buf (item v l) = encode_items_to (encode_item_to buf v) l

    -- `for (k, v) in m`
    pub encode_entries_to : Bytes → Entries → Bytes
    encode_entries_to buf empty = buf
    encode_entries_to buf (entry k v m) =
        encode_entries_to (encode_item_to (encode_bytes buf k) v) m

  unfoldable pub encode : BVal → Bytes
  unfolding encode_item_to encode_bytes encode_int
  encode v = encode_item_to [] v

  unfoldable pub encode_list : Items → Bytes
  unfolding encode_items_to encode_bytes encode_int
  encode_list items = encode_items_to (b'l' ∷ []) items ++ b'e' ∷ []

  unfoldable pub encode_dict : Entries → Bytes
  unfolding encode_entries_to encode_bytes encode_int
  encode_dict m = encode_entries_to (b'd' ∷ []) m ++ b'e' ∷ []
