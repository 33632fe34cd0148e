-- ===== src/Bencode/RoundTrip.antt =====
-- Decoding a canonical form gives the value back, whatever follows it.
use dht_spider.Prelude.{
  drop-append, ℕ, zero, suc, ◌+◌, ◌*◌, ◌^◌, ◌<◌, ◌≤◌, ◌≡◌, refl, ap, ◌∙◌, true, false, some, [],
  ◌∷◌, ◌++◌, append_assoc, arith, Bytes, length, length-append, get_elem?, drop, ◌==◌,
}
use dht_spider.Std.Decimal.{IsDigit, is_digit, decimal_i64, decimal_first}
use dht_spider.Std.Utf8.{from_utf8_lossy, from_utf8_lossy-is_utf8}
use dht_spider.Bencode.Value.{
  BVal, bytes, int, list, dict, Items, nil, item, Entries, empty, entry, ok, push, insert, IsValue,
  AreValues, IsMap,
}
use dht_spider.Bencode.Decode.{
  decode_string, decode_item, list_loop, decode_dict, dict_loop, decode, fuel_for,
}
use dht_spider.Bencode.Atoms.{decode_string-text, decode_int-text}
use dht_spider.Bencode.Append.{
  append_items, append_items-push, append_items-nil, append_entries, append_entries-empty, Before,
  Before-empty, insert-append, insert-Before,
}
use dht_spider.Bencode.Encode.{Itoa, encode}
use dht_spider.Bencode.Cursor.{get_elem?-drop, drop-suc}
use dht_spider.Bencode.Text.{
  text_bytes, text, text_items, text_entries, text_first, text-length_pos, encode-text,
}

-- A list and a dictionary are read by their loops, two calls down.
decode_item-list :
    (f i j : ℕ) (d : Bytes) (l : Items)
    → get_elem? d i ≡ some b'l'
    → list_loop f d (i + 1) nil ≡ ok (l, j)
    → decode_item (suc (suc f)) d i ≡ ok (list l, j)
unfolding decode_item
decode_item-list f i j d l at e = ground arith

decode_item-dict :
    (f i j : ℕ) (d : Bytes) (m : Entries)
    → get_elem? d i ≡ some b'd'
    → dict_loop f d (i + 1) empty ≡ ok (m, j)
    → decode_item (suc (suc f)) d i ≡ ok (dict m, j)
unfolding decode_item
decode_item-dict f i j d m at e = ground arith

-- One round of the dictionary's loop.
dict_loop-entry :
    (f i i2 i3 c c2 : ℕ) (d k : Bytes) (v : BVal) (out : Entries)
    → get_elem? d i ≡ some c
    → IsDigit c
    → decode_string d i ≡ ok (k, i2)
    → get_elem? d i2 ≡ some c2
    → decode_item f d i2 ≡ ok (v, i3)
    → dict_loop (suc f) d i out ≡ dict_loop f d i3 (insert (from_utf8_lossy k) v out)
unfolding dict_loop
dict_loop-entry f i i2 i3 c c2 d k v out at digit key at2 value = ground arith

mutual
  unfolding decode_item text IsValue append_items append_entries

  decode_item-text :
      (v : BVal) (f i j : ℕ) (d rest : Bytes)
      → IsValue v
      → length d < 2 ^ 64
      → drop i d ≡ text v ++ rest
      → 3 * length (text v) ≤ f
      → i + length (text v) ≡ j
      → decode_item f d i ≡ ok (v, j)
  decode_item-text v zero i j d rest hv hd h hf e = absurd (omega (arith, text-length_pos v))
  decode_item-text (bytes s) (suc f) i j d rest hv hd h hf e =
      let (c, cs, first, digit) = decimal_first (length s) in
      let at : get_elem? d i ≡ some c =
        get_elem?-drop i d c ((cs ++ b':' ∷ s) ++ rest)
          (h ∙ ap (λ l. (l ++ b':' ∷ s) ++ rest) first) in
      let l : (c == b'l') ≡ false = ground arith in
      let d' : (c == b'd') ≡ false = ground arith in
      let i' : (c == b'i') ≡ false = ground arith in
      let is : is_digit c ≡ true = ground arith in
      rw (at, decode_item, l, d', i', is, decode_string-text s i j d rest hv hd h e) refl
  decode_item-text (int n) (suc f) i j d rest hv hd h hf e =
      rw
        (
          get_elem?-drop i d b'i' ((decimal_i64 n ++ b'e' ∷ []) ++ rest) h,
          decode_item,
          decode_int-text n i j d rest hv h e,
        )
        refl
  decode_item-text (list l) (suc zero) i j d rest hv hd h hf e = absurd (omega arith)
  decode_item-text (list l) (suc (suc f)) i j d rest hv hd h hf e =
      let at = get_elem?-drop i d b'l' ((text_items l ++ b'e' ∷ []) ++ rest) h in
      let h' =
        drop-suc i d b'l' (text_items l ++ b'e' ∷ rest)
          (h ∙ ap (◌∷◌ b'l') (append_assoc (text_items l) (b'e' ∷ []) rest)) in
      let sum = length-append (text_items l) (b'e' ∷ []) in
      decode_item-list f i j d l at
        (list_loop-text l nil f (i + 1) j d rest hv hd h' (omega arith) (omega arith))
  decode_item-text (dict m) (suc zero) i j d rest hv hd h hf e = absurd (omega arith)
  decode_item-text (dict m) (suc (suc f)) i j d rest hv hd h hf e =
      let at = get_elem?-drop i d b'd' ((text_entries m ++ b'e' ∷ []) ++ rest) h in
      let h' =
        drop-suc i d b'd' (text_entries m ++ b'e' ∷ rest)
          (h ∙ ap (◌∷◌ b'd') (append_assoc (text_entries m) (b'e' ∷ []) rest)) in
      let sum = length-append (text_entries m) (b'e' ∷ []) in
      decode_item-dict f i j d m at (
        dict_loop-text m empty f (i + 1) j d rest hv (Before-empty m) hd h' (omega arith)
          (omega arith))

  list_loop-text :
      (l out : Items) (f i j : ℕ) (d rest : Bytes)
      → AreValues l
      → length d < 2 ^ 64
      → drop i d ≡ text_items l ++ b'e' ∷ rest
      → 3 * length (text_items l) < f
      → i + length (text_items l) + 1 ≡ j
      → list_loop f d i out ≡ ok (append_items out l, j)
  list_loop-text l out zero i j d rest hl hd h hf e = absurd (omega arith)
  list_loop-text nil out (suc f) i j d rest hl hd h hf e =
      let j' : i + 1 ≡ j = omega arith in
      rw (get_elem?-drop i d b'e' rest h, list_loop, j', append_items-nil out) refl
  list_loop-text (item v l) out (suc f) i j d rest hl hd h hf e =
      let (c, cs, first, ne) = text_first v in
      let pos = text-length_pos v in
      let h' : drop i d ≡ text v ++ (text_items l ++ b'e' ∷ rest) =
        h ∙ append_assoc (text v) (text_items l) (b'e' ∷ rest) in
      let at =
        get_elem?-drop i d c (cs ++ (text_items l ++ b'e' ∷ rest))
          (h' ∙ ap (λ t. t ++ (text_items l ++ b'e' ∷ rest)) first) in
      let open' : (c == b'e') ≡ false = ground arith in
      let sum = length-append (text v) (text_items l) in
      rw
        (
          at,
          list_loop,
          open',
          decode_item-text v f i (i + length (text v)) d (text_items l ++ b'e' ∷ rest) hl.0 hd h'
              (omega arith) refl,
        )
        (list_loop-text l (push out v) f (i + length (text v)) j d rest hl.1 hd
            (drop-append i d (text v) (text_items l ++ b'e' ∷ rest) h') (omega arith) (omega arith)
          ∙ ap (λ o. ok (o, j)) (append_items-push out v l))

  dict_loop-text :
      (m out : Entries) (f i j : ℕ) (d rest : Bytes)
      → IsMap m
      → Before out m
      → length d < 2 ^ 64
      → drop i d ≡ text_entries m ++ b'e' ∷ rest
      → 3 * length (text_entries m) < f
      → i + length (text_entries m) + 1 ≡ j
      → dict_loop f d i out ≡ ok (append_entries out m, j)
  dict_loop-text m out zero i j d rest hm hb hd h hf e = absurd (omega arith)
  dict_loop-text empty out (suc f) i j d rest hm hb hd h hf e =
      let j' : i + 1 ≡ j = omega arith in
      rw (get_elem?-drop i d b'e' rest h, dict_loop, j', append_entries-empty out) refl
  dict_loop-text (entry k v m) out (suc f) i j d rest hm hb hd h hf e =
      let after : Bytes = text_entries m ++ b'e' ∷ rest in
      let i2 : ℕ = i + length (text_bytes k) in
      let i3 : ℕ = i2 + length (text v) in
      let h' : drop i d ≡ text_bytes k ++ (text v ++ after) = h ∙ simp append_assoc in
      let (c, cs, first, digit) = decimal_first (length k) in
      let (c2, cs2, first2, ne) = text_first v in
      let at =
        get_elem?-drop i d c ((cs ++ b':' ∷ k) ++ (text v ++ after))
          (h' ∙ ap (λ t. (t ++ b':' ∷ k) ++ (text v ++ after)) first) in
      let h2 : drop i2 d ≡ text v ++ after = drop-append i d (text_bytes k) (text v ++ after) h' in
      let at2 : get_elem? d i2 ≡ some c2 =
        get_elem?-drop i2 d c2 (cs2 ++ after) (h2 ∙ ap (λ t. t ++ after) first2) in
      let pos = text-length_pos v in
      let sum = length-append (text_bytes k) (text v ++ text_entries m) in
      let sum2 = length-append (text v) (text_entries m) in
      let next : dict_loop (suc f) d i out ≡ dict_loop f d i3 (insert (from_utf8_lossy k) v out) =
        dict_loop-entry f i i2 i3 c c2 d k v out at digit
          (decode_string-text k i i2 d (text v ++ after) hm.0.1 hd h' refl) at2
          (decode_item-text v f i2 i3 d after hm.1 hd h2 (omega arith) refl) in
      rw (next, from_utf8_lossy-is_utf8 k hm.0.0)
        (dict_loop-text m (insert k v out) f i3 j d rest hm.3
            (insert-Before out k v m hb.0 hb.1 hm.2) hd (drop-append i2 d (text v) after h2)
            (omega arith) (omega arith)
          ∙ ap (λ o. ok (o, j)) (insert-append out k v m hb.0))

-- A value printed at an index is read from there, and the index moves past it.
pub decode_item-eq-ok :
    (v : BVal) (f i : ℕ) (d rest : Bytes)
    → IsValue v
    → length d < 2 ^ 64
    → drop i d ≡ text v ++ rest
    → 3 * length (text v) ≤ f
    → decode_item f d i ≡ ok (v, i + length (text v))
decode_item-eq-ok v f i d rest hv hd h hf =
    decode_item-text v f i (i + length (text v)) d rest hv hd h hf refl

-- Decoding the canonical form of a value, whatever bytes follow it, gives the value back.
pub decode-text :
    (v : BVal) (rest : Bytes)
    → IsValue v
    → length (text v ++ rest) < 2 ^ 64
    → decode (text v ++ rest) ≡ ok v
unfolding decode
decode-text v rest hv hd =
    let sum = length-append (text v) rest in
    rw
      (decode_item-eq-ok v (fuel_for (text v ++ rest)) 0 (text v ++ rest) rest hv hd refl
        (omega arith))
      refl

decode_dict-text :
    (m : Entries) (f : ℕ) (d rest : Bytes)
    → IsMap m
    → length d < 2 ^ 64
    → d ≡ text (dict m) ++ rest
    → 3 * length (text (dict m)) < f
    → decode_dict (suc f) d 0 ≡ ok (m, length (text (dict m)))
unfolding decode_item text append_entries
decode_dict-text m f d rest hm hd h hf =
    let at = get_elem?-drop 0 d b'd' ((text_entries m ++ b'e' ∷ []) ++ rest) h in
    let h' =
      drop-suc 0 d b'd' (text_entries m ++ b'e' ∷ rest)
        (h ∙ ap (◌∷◌ b'd') (append_assoc (text_entries m) (b'e' ∷ []) rest)) in
    let sum = length-append (text_entries m) (b'e' ∷ []) in
    rw (at, decode_dict)
      (dict_loop-text m empty f 1 (length (text (dict m))) d rest hm (Before-empty m) hd h'
        (omega arith) (omega arith))

module _ (itoa : Itoa) where
  -- What the encoder writes decodes to the value that was written, whatever bytes follow it.
  pub decode-encode :
      (v : BVal) (rest : Bytes)
      → IsValue v
      → length (encode itoa v ++ rest) < 2 ^ 64
      → decode (encode itoa v ++ rest) ≡ ok v
  decode-encode v rest hv hd =
      let e = encode-text itoa v hv in rw e (decode-text v rest hv (rw e at hd))

  -- A dictionary is read where it ends, whatever follows it.
  pub decode_dict-encode :
      (m : Entries) (rest : Bytes)
      → IsValue (dict m)
      → length (encode itoa (dict m) ++ rest) < 2 ^ 64
      → let d = encode itoa (dict m) ++ rest in
        decode_dict (fuel_for d) d 0 ≡ ok (m, length (encode itoa (dict m)))
  unfolding IsValue
  decode_dict-encode m rest hm hd =
      let e = encode-text itoa (dict m) hm in
      let d = text (dict m) ++ rest in
      let fuel : 3 * length d + 4 ≡ suc (3 * length d + 3) = omega arith in
      let sum = length-append (text (dict m)) rest in
      rw (e, fuel) (decode_dict-text m (3 * length d + 3) d rest hm (rw e at hd) refl (omega arith))
