-- ===== src/Wire/Serving.antt =====
-- A peer that sends the pieces of the metadata in order is served: the download ends with it.
use dht_spider.Prelude.{
  take_all, ℕ, zero, suc, ◌+◌, ◌*◌, ◌%◌, ◌^◌, ◌<◌, ◌≤◌, ◌≡◌, refl, sym, ap, ◌∙◌, true, false, some,
  List, [], ◌∷◌, ◌++◌, append_assoc, append-nil, Bytes, codes, length, length-append, replicate,
  take, drop, length-take, length-drop, drop-length-append, ◌==◌, arith,
}
use dht_spider.Std.Decimal.{pos}
use dht_spider.Bencode.Value.{int, dict, Entries, get, IsValue}
use dht_spider.Bencode.Decode.{slice}
use dht_spider.Bencode.Cursor.{slice-append}
use dht_spider.Bencode.Encode.{Itoa, encode}
use dht_spider.Bencode.RoundTrip.{decode_dict-encode}
use dht_spider.Wire.Download.{
  block, extended, Download, Outcome, waits, rejects, finishes, out_of_fuel, quiet, bad_size,
  all_filled, concat, on_piece, on_data, on_message,
}
use dht_spider.Wire.Pieces.{
  all_filled_last, filled, bad_size_last, bad_size_inner, concat_next, on_piece-next, complete-last,
  complete-more,
}

-- The dictionary in front of a piece.
abbrev pub IsHeader : Itoa → ℕ → Entries → Type 0
IsHeader itoa i m =
    IsValue (dict m)
    × (length (encode itoa (dict m)) < 2 ^ 19)
    × (get (codes "msg_type") m ≡ some (int (pos 1)))
    × (get (codes "piece") m ≡ some (int (pos i)))

module _ (sha1 : Bytes → Bytes) (info_hash : Bytes) (itoa : Itoa) (ext_id : ℕ)
    (ext : (ext_id == 0) ≡ false) where
  abbrev pub piece_message : Entries × Bytes → Bytes
  piece_message (m, chunk) = extended ∷ ext_id ∷ (encode itoa (dict m) ++ chunk)

  on_message-piece :
      (d : Download) (all : List Bytes) (i : ℕ) (m : Entries) (chunk : Bytes)
      → d.pieces ≡ some all
      → IsHeader itoa i m
      → i < 2 ^ 64
      → length (encode itoa (dict m) ++ chunk) < 2 ^ 64
      → on_message sha1 info_hash itoa d (piece_message (m, chunk))
        ≡ on_piece sha1 info_hash d all i chunk
  unfolding on_message on_data
  on_message-piece d all i m chunk p h k l =
      let text = encode itoa (dict m) in
      let cut : slice (text ++ chunk) (length text) (length (text ++ chunk)) ≡ chunk =
        slice-append (length text) (length (text ++ chunk)) (text ++ chunk) chunk []
          (drop-length-append text chunk ∙ sym (append-nil chunk))
          (sym (length-append text chunk)) in
      let index : i % 2 ^ 64 ≡ i = omega arith in
      rw (ext, p, decode_dict-encode itoa m chunk h.0 l, h.2, h.3, cut, index) refl

abbrev pub followed : Outcome → (Download → Outcome) → Outcome
followed (waits d out peers) rest = rest d
followed rejects rest = rejects
followed (finishes metadata) rest = finishes metadata
followed out_of_fuel rest = out_of_fuel

-- Messages one after the other, as long as the download waits.
unfoldable pub run {ℓ} : {A : Type ℓ} → (Download → A → Outcome) → Download → List A → Outcome
run step d [] = quiet d
run step d (x ∷ xs) = followed (step d x) (λ d'. run step d' xs)

-- The pieces from an index on: whole blocks, and what is left, each with its dictionary.
unfoldable pub pieces_from : (ℕ → Entries) → ℕ → ℕ → Bytes → List (Entries × Bytes)
pieces_from header i zero input = []
pieces_from header i (suc n) input =
    (header i, take block input) ∷ pieces_from header (i + 1) n (drop block input)

header_length :
    (itoa : Itoa) (i : ℕ) (m : Entries) (chunk : Bytes)
    → IsHeader itoa i m
    → length chunk ≤ block
    → length (encode itoa (dict m) ++ chunk) < 2 ^ 64
header_length itoa i m chunk h k = omega (arith, h.1, length-append (encode itoa (dict m)) chunk)

module _ (sha1 : Bytes → Bytes) (info_hash : Bytes) (itoa : Itoa) (ext_id : ℕ)
    (ext : (ext_id == 0) ≡ false) (header : ℕ → Entries) where
  abbrev pub step : Download → Entries × Bytes → Outcome
  step d x = on_message sha1 info_hash itoa d (piece_message sha1 info_hash itoa ext_id ext x)

  pub serve :
      (j : ℕ) (d : Download) (front : List Bytes) (input : Bytes) (r : ℕ)
      → ((i : ℕ) → i < d.pieces_num → IsHeader itoa i (header i))
      → d.pieces ≡ some (front ++ replicate (suc j) [])
      → d.pieces_num ≡ length front + suc j
      → d.pieces_num ≤ 1000
      → d.metadata_size % block ≡ r
      → 0 < r
      → length input ≡ j * block + r
      → all_filled front ≡ true
      → sha1 (concat front ++ input) ≡ info_hash
      → run step d (pieces_from header (length front) (suc j) input)
        ≡ finishes (concat front ++ input)
  unfolding run pieces_from
  serve zero d front input r headers p num few size nonempty len all good =
      let whole : take block input ≡ input = take_all block input (omega arith) in
      let fits : bad_size d (length front) (length input) ≡ false =
        bad_size_last d (length front) (length input) num (omega arith) (omega arith) in
      let one =
        on_message-piece sha1 info_hash itoa ext_id ext d (front ++ [] ∷ []) (length front)
          (header (length front)) input p (headers (length front) (omega arith)) (omega arith)
          (header_length itoa (length front) (header (length front)) input
            (headers (length front) (omega arith)) (omega arith)) in
      rw
        (
          whole,
          one,
          on_piece-next sha1 info_hash d front [] input fits,
          complete-last sha1 info_hash d front input all (omega arith) good,
        )
        refl
  serve (suc j) d front input r headers p num few size nonempty len all good =
      let chunk = take block input in
      let rest = drop block input in
      let i = length front in
      let full : length (take block input) ≡ block = omega (arith, length-take block input) in
      let fits =
        bad_size_inner d (length front) (length (take block input)) (omega arith) few full in
      let h = headers (length front) (omega arith) in
      let one =
        on_message-piece sha1 info_hash itoa ext_id ext d (front ++ [] ∷ replicate (suc j) [])
          (length front) (header (length front)) (take block input) p h (omega arith)
          (header_length itoa (length front) (header (length front)) (take block input) h
            (omega arith)) in
      let index : length (front ++ take block input ∷ []) ≡ length front + 1 =
        length-append front (take block input ∷ []) in
      let d' : Download = record d {
        pieces = some (front ++ take block input ∷ replicate (suc j) []);
      } in
      let ih =
        serve j d' (front ++ take block input ∷ []) (drop block input) r headers
          (ap some (sym (append_assoc front (take block input ∷ []) (replicate (suc j) []))))
          (omega arith) few size nonempty (omega (arith, length-drop block input))
          (all_filled_last front (take block input) all (filled (take block input) (omega arith)))
          (ap sha1 (concat_next front block input) ∙ good) in
      rw
        (
          one,
          on_piece-next sha1 info_hash d front (replicate (suc j) []) (take block input) fits,
          complete-more sha1 info_hash d front (take block input) j,
          ← index,
        )
        (ih ∙ ap finishes (concat_next front block input))
