-- ===== src/Wire/Safety.antt =====
-- What the download yields: metadata with the torrent's hash, from a bounded number of pieces.
use dht_spider.Prelude as Prelude
use dht_spider.Prelude.{
  codes, ℕ, zero, suc, ◌+◌, ◌-◌, ◌*◌, ◌/◌, ◌%◌, ◌^◌, ◌<◌, ◌≤◌, ◌≡◌, refl, ap, ◌∙◌, Bool, true,
  false, Option, none, some, List, [], ◌∷◌, arith, Bytes, length, length-set, replicate, ltb, ◌==◌,
  ==_iff, if◌then◌else◌, Bool-cases, inl, inr,
}
use dht_spider.Std.Decimal.{as_usize, ℤ}
use dht_spider.Std.Order.{bytes_eq, bytes_eq_iff}
use dht_spider.Bencode.Value as Value
use dht_spider.Bencode.Value.{Entries, get}
use dht_spider.Bencode.Decode.{decode_dict, fuel_for, slice}
use dht_spider.Bencode.Encode.{Itoa}
use dht_spider.Wire.Download.{
  block, max_metadata_size, extended, Download, Outcome, waits, rejects, finishes, out_of_fuel,
  is_last, int_of, on_size, on_announced, on_decoded, on_handshake, on_numbered, on_dictionary,
  bad_size, is_data, all_filled, concat, complete, on_piece, on_data, on_message,
}

-- As many places as pieces were announced, and no more than a thousand.
abbrev pub Counted : ℕ → Option (List Bytes) → Type 0
Counted pieces_num none = Unit
Counted pieces_num (some all) = (length all ≡ pieces_num) × (pieces_num ≤ 1000)

abbrev pub IsDownload : Download → Type 0
IsDownload d = Counted d.pieces_num d.pieces

-- The next state is well formed, or the metadata has the hash.
abbrev pub IsSafe : (Bytes → Bytes) → Bytes → Outcome → Type 0
IsSafe sha1 info_hash (waits d out peers) = IsDownload d
IsSafe sha1 info_hash rejects = Unit
IsSafe sha1 info_hash (finishes metadata) = sha1 metadata ≡ info_hash
IsSafe sha1 info_hash out_of_fuel = Unit

length-replicate_empty : (n : ℕ) → length {A = Bytes} (replicate n []) ≡ n
length-replicate_empty zero = refl
length-replicate_empty (suc n) = ap suc (length-replicate_empty n)

module _ (sha1 : Bytes → Bytes) (info_hash : Bytes) where
  on_size-IsSafe :
      (itoa : Itoa) (m : Entries) (meta_size : ℕ) → IsSafe sha1 info_hash (on_size itoa m meta_size)
  unfolding on_size
  on_size-IsSafe itoa m meta_size = elim (Bool-cases (ltb max_metadata_size meta_size)) [
    | inl large ↦ rw (on_size, large) tt
    | inr fits ↦
        let bounded : meta_size / block + (if meta_size % block == 0 then 0 else 1) ≤ 1000 =
          ground arith in
        rw (on_size, fits) (length-replicate_empty _, bounded)
  ]

  on_announced-IsSafe :
      (itoa : Itoa) (m : Entries) (o : Option ℤ) → IsSafe sha1 info_hash (on_announced itoa m o)
  on_announced-IsSafe itoa m none = tt
  on_announced-IsSafe itoa m (some n) = on_size-IsSafe itoa m (as_usize n)

  on_decoded-IsSafe :
      (itoa : Itoa) (r : Value.Result (Entries × ℕ)) → IsSafe sha1 info_hash (on_decoded itoa r)
  on_decoded-IsSafe itoa (Value.ok (m, index)) =
      on_announced-IsSafe itoa m (int_of (get (codes "metadata_size") m))
  on_decoded-IsSafe itoa (Value.err e) = tt
  on_decoded-IsSafe itoa Value.out_of_fuel = tt

  on_handshake-IsSafe :
      (itoa : Itoa) (pieces : Option (List Bytes)) (rest : Bytes)
      → IsSafe sha1 info_hash (on_handshake itoa pieces rest)
  unfolding on_handshake
  on_handshake-IsSafe itoa (some all) rest = tt
  on_handshake-IsSafe itoa none rest = on_decoded-IsSafe itoa (decode_dict (fuel_for rest) rest 0)

  complete-IsSafe :
      (d : Download) (all : List Bytes)
      → Counted d.pieces_num (some all)
      → IsSafe sha1 info_hash (complete sha1 info_hash d all)
  unfolding complete
  complete-IsSafe d all h = elim (Bool-cases (all_filled all)) [
    | inl done ↦ elim (Bool-cases (bytes_eq (sha1 (concat all)) info_hash)) [
      | inl good ↦ rw (complete, done, good) ((bytes_eq_iff (sha1 (concat all)) info_hash).0 good)
      | inr bad ↦ rw (complete, done, bad) tt
    ]
    | inr missing ↦ rw (complete, missing) h
  ]

  on_piece-IsSafe :
      (d : Download) (all : List Bytes) (piece : ℕ) (chunk : Bytes)
      → Counted d.pieces_num (some all)
      → IsSafe sha1 info_hash (on_piece sha1 info_hash d all piece chunk)
  unfolding on_piece
  on_piece-IsSafe d all piece chunk h = elim (Bool-cases (bad_size d piece (length chunk))) [
    | inl bad ↦ rw (on_piece, bad) tt
    | inr good ↦ elim (Bool-cases (ltb piece (length all))) [
      | inl inside ↦
          rw (on_piece, good, inside)
            (complete-IsSafe d (Prelude.set all piece chunk)
              (length-set all piece chunk ∙ h.0, h.1))
      | inr outside ↦ rw (on_piece, good, outside) (complete-IsSafe d all h)
    ]
  ]

  on_numbered-IsSafe :
      (d : Download) (all : List Bytes) (o : Option ℤ) (chunk : Bytes)
      → Counted d.pieces_num (some all)
      → IsSafe sha1 info_hash (on_numbered sha1 info_hash d all o chunk)
  on_numbered-IsSafe d all none chunk h = tt
  on_numbered-IsSafe d all (some n) chunk h = on_piece-IsSafe d all (as_usize n) chunk h

  on_dictionary-IsSafe :
      (d : Download) (ext_id : ℕ) (rest : Bytes) (all : List Bytes) (r : Value.Result (Entries × ℕ))
      → IsDownload d
      → Counted d.pieces_num (some all)
      → IsSafe sha1 info_hash (on_dictionary sha1 info_hash d ext_id rest all r)
  on_dictionary-IsSafe d ext_id rest all (Value.err e) w h = tt
  on_dictionary-IsSafe d ext_id rest all Value.out_of_fuel w h = tt
  on_dictionary-IsSafe d ext_id rest all (Value.ok (m, index)) w h =
      elim (Bool-cases (is_data (get (codes "msg_type") m))) [
        | inl hit ↦ rw hit (
            on_numbered-IsSafe d all (int_of (get (codes "piece") m))
              (slice rest index (length rest)) h)
        | inr miss ↦ rw miss w
      ]

  on_data-IsSafe :
      (d : Download) (ext_id : ℕ) (rest : Bytes) (pieces : Option (List Bytes))
      → IsDownload d
      → Counted d.pieces_num pieces
      → IsSafe sha1 info_hash (on_data sha1 info_hash d ext_id rest pieces)
  unfolding on_data
  on_data-IsSafe d ext_id rest none w h = tt
  on_data-IsSafe d ext_id rest (some all) w h =
      on_dictionary-IsSafe d ext_id rest all (decode_dict (fuel_for rest) rest 0) w h

  -- A message leaves the download well formed, with at most a thousand pieces, or ends it; what it
  -- ends with, if not with an error, has the hash that was asked for.
  pub on_message-IsSafe :
      (itoa : Itoa) (d : Download) (payload : Bytes)
      → IsDownload d
      → IsSafe sha1 info_hash (on_message sha1 info_hash itoa d payload)
  unfolding on_message
  on_message-IsSafe itoa d [] w = w
  on_message-IsSafe itoa d (msg_type ∷ []) w = elim (Bool-cases (msg_type == extended)) [
    | inl hit ↦ rw (on_message, hit) tt
    | inr miss ↦ rw (on_message, miss) w
  ]
  on_message-IsSafe itoa d (msg_type ∷ ext_id ∷ rest) w = elim (Bool-cases (msg_type == extended)) [
    | inl hit ↦ elim (Bool-cases (ext_id == 0)) [
      | inl shake ↦ rw (on_message, hit, shake) (on_handshake-IsSafe itoa d.pieces rest)
      | inr piece ↦ rw (on_message, hit, piece) (on_data-IsSafe d ext_id rest d.pieces w w)
    ]
    | inr miss ↦ rw (on_message, miss) w
  ]

  -- Where the size of the metadata is a multiple of the block, the last piece, which is a whole
  -- block then, is refused.
  pub on_piece_last :
      (d : Download) (all : List Bytes) (chunk : Bytes)
      → 0 < d.pieces_num
      → d.pieces_num < 2 ^ 64
      → d.metadata_size ≡ d.pieces_num * block
      → length chunk ≡ block
      → on_piece sha1 info_hash d all (d.pieces_num - 1) chunk ≡ rejects
  unfolding on_piece
  on_piece_last d all chunk some_pieces fits whole full =
      let last : is_last (d.pieces_num - 1) d.pieces_num ≡ true = (==_iff _ _).1 (omega arith) in
      let wrong : (length chunk == d.metadata_size % block) ≡ false = ground (arith, whole, full) in
      rw (last, wrong) refl
