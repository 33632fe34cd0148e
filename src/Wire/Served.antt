-- ===== src/Wire/Served.antt =====
-- The same on the bytes of the connection, from the peer's extended handshake on.
use dht_spider.Prelude.{
  ℕ, zero, suc, ◌+◌, ◌*◌, ◌/◌, ◌%◌, ◌^◌, ◌<◌, ◌≤◌, ◌≡◌, refl, ap, subst, ◌∙◌, Bool, false, some,
  List, [], ◌∷◌, ◌++◌, append-nil, map, All, Bytes, codes, length, length-append, replicate,
  length-take, ltb, ltb-false, take, drop, ◌==◌, arith,
}
use dht_spider.Std.Decimal.{pos}
use dht_spider.Bencode.Value.{int, dict, Entries, get, IsValue}
use dht_spider.Bencode.Value.{ok}
use dht_spider.Bencode.Decode.{decode_dict, fuel_for}
use dht_spider.Bencode.Encode.{Itoa, encode}
use dht_spider.Bencode.RoundTrip.{decode_dict-encode}
use dht_spider.Wire.Frame.{send_message}
use dht_spider.Wire.FrameLaws.{read_message-send_message}
use dht_spider.Wire.Download.{
  block, max_metadata_size, extended, all_filled, concat, Download, start, Outcome, waits, rejects,
  finishes, out_of_fuel, on_message, on_size, on_handshake,
}
use dht_spider.Wire.Fetch.{obtains, Work, next, fetch}
use dht_spider.Wire.Serving.{IsHeader, followed, run, pieces_from, piece_message, serve}

-- The messages as they are sent.
unfoldable pub frames : List Bytes → Bytes
frames [] = []
frames (p ∷ ps) = send_message p ++ frames ps

IsMessage : Bytes → Type 0
IsMessage p = (0 < length p) × (length p ≤ 1048576)

module _ (sha1 : Bytes → Bytes) (info_hash : Bytes) (itoa : Itoa) where
  next-followed :
      (rest : Download → Work) (k : Download → Outcome) (m : Bytes) (o : Outcome)
      → ((d : Download) → k d ≡ finishes m → (rest d).result ≡ obtains m)
      → followed o k ≡ finishes m
      → (next sha1 itoa info_hash rest o).result ≡ obtains m
  next-followed rest k m (waits d out peers) h e = h d e
  next-followed rest k m rejects h e = cc
  next-followed rest k m (finishes metadata) h e = cc
  next-followed rest k m out_of_fuel h e = cc

  fetch-run :
      (closed : Bool) (ps : List Bytes) (d : Download) (m : Bytes)
      → All IsMessage ps
      → run (on_message sha1 info_hash itoa) d ps ≡ finishes m
      → (fetch sha1 itoa info_hash closed (length ps) d (frames ps)).result ≡ obtains m
  unfolding run fetch frames IsMessage
  fetch-run closed [] d m h e = cc
  fetch-run closed (p ∷ ps) d m h e =
      rw (read_message-send_message closed p (frames ps) h.0.0 h.0.1) (
        next-followed (λ d'. fetch sha1 itoa info_hash closed (length ps) d' (frames ps))
          (λ d'. run (on_message sha1 info_hash itoa) d' ps) m (on_message sha1 info_hash itoa d p)
          (λ d' e'. fetch-run closed ps d' m h.1 e') e)

  run-map {ℓ} :
      {A : Type ℓ} (f : A → Bytes) (d : Download) (xs : List A)
      → run (on_message sha1 info_hash itoa) d (map f xs)
        ≡ run (λ d' x. on_message sha1 info_hash itoa d' (f x)) d xs
  unfolding run
  run-map f d [] = refl
  run-map f d (x ∷ xs) =
      λ i. followed (on_message sha1 info_hash itoa d (f x)) (λ d'. run-map f d' xs i)

  -- The peer's first message, which announces the size.
  on_message-size :
      (m : Entries) (n : ℕ)
      → IsValue (dict m)
      → length (encode itoa (dict m)) < 2 ^ 19
      → get (codes "metadata_size") m ≡ some (int (pos n))
      → n < 2 ^ 64
      → on_message sha1 info_hash itoa start (extended ∷ 0 ∷ encode itoa (dict m))
        ≡ on_size itoa m n
  unfolding on_message on_handshake
  on_message-size m n v l e k =
      let wraps : n % 2 ^ 64 ≡ n = omega arith in
      let none_behind = append-nil (encode itoa (dict m)) in
      let small : length (encode itoa (dict m) ++ []) < 2 ^ 64 = rw none_behind (omega arith) in
      let decoded =
        subst (λ d. decode_dict (fuel_for d) d 0 ≡ ok (m, length (encode itoa (dict m))))
          none_behind (decode_dict-encode itoa m [] v small) in
      rw (decoded, e, wraps) refl

  on_size-waits :
      (m : Entries) (k r n : ℕ)
      → n ≡ k * block + r
      → 0 < r
      → r < block
      → k < 1000
      → (d : Download) × (out : List Bytes) × (on_size itoa m n ≡ waits d out [])
        × (d.pieces ≡ some (replicate (suc k) []))
        × (d.pieces_num ≡ suc k)
        × (d.metadata_size ≡ n)
  unfolding on_size
  on_size-waits m k r n e some_left less few =
      let fits : ltb max_metadata_size n ≡ false = ltb-false max_metadata_size n (omega arith) in
      let left : (n % block == 0) ≡ false = ground arith in
      let number : n / block + 1 ≡ suc k = omega arith in
      rw (fits, left, number) (_, _, refl, refl, refl, refl)

piece_message-IsMessage :
    (sha1 : Bytes → Bytes) (itoa : Itoa) (info_hash : Bytes) (ext_id : ℕ)
    (ext : (ext_id == 0) ≡ false) (i n : ℕ) (m : Entries) (input : Bytes)
    → IsHeader itoa i m
    → IsMessage (piece_message sha1 info_hash itoa ext_id ext (m, take block input))
unfolding IsMessage
piece_message-IsMessage sha1 itoa info_hash ext_id ext i n m input h =
    let sum = length-append (encode itoa (dict m)) (take block input) in
    let cut = length-take block input in let small = h.1 in (omega arith, omega arith)

pieces-All :
    (sha1 : Bytes → Bytes) (itoa : Itoa) (info_hash : Bytes) (ext_id : ℕ)
    (ext : (ext_id == 0) ≡ false) (header : ℕ → Entries) (i n : ℕ) (input : Bytes)
    → ((j : ℕ) → j < i + n → IsHeader itoa j (header j))
    → All IsMessage
        (map (piece_message sha1 info_hash itoa ext_id ext) (pieces_from header i n input))
unfolding pieces_from
pieces-All sha1 itoa info_hash ext_id ext header i zero input h = tt
pieces-All sha1 itoa info_hash ext_id ext header i (suc n) input h = (
  piece_message-IsMessage sha1 itoa info_hash ext_id ext i n (header i) input (h i (omega arith)),
  pieces-All sha1 itoa info_hash ext_id ext header (i + 1) n (drop block input)
      (λ j b. h j (omega arith)),
)

-- If the peer announces the size of the metadata, below 1000 blocks and no multiple of a block, and
-- then sends its pieces in order, each behind a dictionary with its number, all dictionaries proper
-- values of less than half a megabyte, then the download obtains the metadata, given that it has
-- the hash.
pub fetch-serve :
    (sha1 : Bytes → Bytes) (itoa : Itoa) (info_hash : Bytes) (closed : Bool) (ext_id : ℕ)
    (first : Entries) (header : ℕ → Entries) (input : Bytes) (k r : ℕ)
    → (ext : (ext_id == 0) ≡ false) → IsValue (dict first)
    → length (encode itoa (dict first)) < 2 ^ 19
    → get (codes "metadata_size") first ≡ some (int (pos (length input)))
    → ((i : ℕ) → i < suc k → IsHeader itoa i (header i))
    → length input ≡ k * block + r
    → 0 < r
    → r < block
    → k < 1000
    → sha1 input ≡ info_hash
    → let ps =
        (extended ∷ 0 ∷ encode itoa (dict first))
        ∷ map (piece_message sha1 info_hash itoa ext_id ext) (pieces_from header 0 (suc k) input) in
      (fetch sha1 itoa info_hash closed (length ps) start (frames ps)).result ≡ obtains input
unfolding run IsMessage concat all_filled
fetch-serve sha1 itoa info_hash closed ext_id first header input k r ext v l size headers len
      some_left less few good =
    let (d, out, waiting, p, num, total) =
      on_size-waits sha1 info_hash itoa first k r (length input) len some_left less few in
    let pieces = pieces_from header 0 (suc k) input in
    let received =
      run-map sha1 info_hash itoa (piece_message sha1 info_hash itoa ext_id ext) d pieces
      ∙ serve sha1 info_hash itoa ext_id ext header k d [] input r (λ i b. headers i (omega arith))
          p (omega arith) (omega arith) (ap (λ n. n % block) total ∙ omega arith) some_left len refl
          good in
    fetch-run sha1 info_hash itoa closed
      ((extended ∷ 0 ∷ encode itoa (dict first))
        ∷ map (piece_message sha1 info_hash itoa ext_id ext) pieces)
      start input
      (
        (omega arith, omega arith),
        pieces-All sha1 itoa info_hash ext_id ext header 0 (suc k) input
            (λ j b. headers j (omega arith)),
      )
      (rw (on_message-size sha1 info_hash itoa first (length input) v l size (omega arith), waiting)
        received)
