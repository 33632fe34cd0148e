-- ===== src/Bencode/Text.antt =====
-- The canonical bencoding of a value, an independent description of what the encoder writes.
use dht_spider.Prelude.{
  ℕ, ◌<◌, ◌^◌, ◌≡◌, ◌≢◌, refl, sym, [], ◌∷◌, ◌++◌, append_assoc, append-nil, arith, Bytes, length,
}
use dht_spider.Std.Decimal.{ℤ, IsI64, decimal, decimal_i64, decimal_first}
use dht_spider.Bencode.Value.{
  BVal, bytes, int, list, dict, Items, nil, item, Entries, empty, entry, IsValue, AreValues, IsMap,
}
use dht_spider.Bencode.Encode.{
  Itoa, encode_bytes, encode_int, encode_item_to, encode_items_to, encode_entries_to, encode,
}

abbrev pub text_bytes : Bytes → Bytes
text_bytes s = decimal (length s) ++ b':' ∷ s

unfoldable mutual
  pub text : BVal → Bytes
  text (bytes s) = text_bytes s
  text (int n) = b'i' ∷ (decimal_i64 n ++ b'e' ∷ [])
  text (list l) = b'l' ∷ (text_items l ++ b'e' ∷ [])
  text (dict m) = b'd' ∷ (text_entries m ++ b'e' ∷ [])

  pub text_items : Items → Bytes
  text_items nil = []
  text_items (item v l) = text v ++ text_items l

  pub text_entries : Entries → Bytes
  text_entries empty = []
  text_entries (entry k v m) = text_bytes k ++ (text v ++ text_entries m)

module _ (itoa : Itoa) where
  encode_bytes-text :
      (buf s : Bytes) → length s < 2 ^ 64 → encode_bytes itoa buf s ≡ buf ++ text_bytes s
  unfolding encode_bytes
  encode_bytes-text buf s h = simp (itoa.format_usize_lem (length s) h, append_assoc)

  encode_int-text : (buf : Bytes) (n : ℤ) → IsI64 n → encode_int itoa buf n ≡ buf ++ text (int n)
  unfolding encode_int text
  encode_int-text buf n h = simp (itoa.format_i64_lem n h, append_assoc)

  mutual
    unfolding encode_item_to text IsValue

    encode_item_to-text :
        (v : BVal) (buf : Bytes) → IsValue v → encode_item_to itoa buf v ≡ buf ++ text v
    encode_item_to-text (bytes s) buf h = encode_bytes-text buf s h
    encode_item_to-text (int n) buf h = encode_int-text buf n h
    encode_item_to-text (list l) buf h =
        rw (encode_items_to-text l (buf ++ b'l' ∷ []) h) (simp append_assoc)
    encode_item_to-text (dict m) buf h =
        rw (encode_entries_to-text m (buf ++ b'd' ∷ []) h) (simp append_assoc)

    encode_items_to-text :
        (l : Items) (buf : Bytes) → AreValues l → encode_items_to itoa buf l ≡ buf ++ text_items l
    encode_items_to-text nil buf h = sym (append-nil buf)
    encode_items_to-text (item v l) buf h =
        rw (encode_item_to-text v buf h.0, encode_items_to-text l (buf ++ text v) h.1)
          (append_assoc buf (text v) (text_items l))

    encode_entries_to-text :
        (m : Entries) (buf : Bytes) → IsMap m → encode_entries_to itoa buf m ≡ buf ++ text_entries m
    encode_entries_to-text empty buf h = sym (append-nil buf)
    encode_entries_to-text (entry k v m) buf h =
        rw
          (
            encode_bytes-text buf k h.0.1,
            encode_item_to-text v (buf ++ text_bytes k) h.1,
            encode_entries_to-text m ((buf ++ text_bytes k) ++ text v) h.3,
          )
          (simp append_assoc)

  -- The encoder writes the canonical form of every value.
  pub encode-text : (v : BVal) → IsValue v → encode itoa v ≡ text v
  unfolding encode
  encode-text v h = encode_item_to-text v [] h

-- What starts a value is none of the closing `e`.
pub text_first : (v : BVal) → (c : ℕ) × (cs : Bytes) × (text v ≡ c ∷ cs) × (c ≢ b'e')
unfolding text
text_first (bytes s) =
    let (c, cs, e, d) = decimal_first (length s) in (c, cs ++ b':' ∷ s, rw e refl, omega arith)
text_first (int n) = (b'i', decimal_i64 n ++ b'e' ∷ [], refl, omega arith)
text_first (list l) = (b'l', text_items l ++ b'e' ∷ [], refl, omega arith)
text_first (dict m) = (b'd', text_entries m ++ b'e' ∷ [], refl, omega arith)

pub text-length_pos : (v : BVal) → 0 < length (text v)
text-length_pos v = let (c, cs, e, h) = text_first v in rw e (omega arith)
