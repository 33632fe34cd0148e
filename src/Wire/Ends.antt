-- ===== src/Wire/Ends.antt =====
-- A message of the download is dealt with: the decoder does not run out of its fuel.
use dht_spider.Std.Order.{bytes_eq}
use dht_spider.Prelude as Prelude
use dht_spider.Prelude.{
  ℕ, zero, suc, ◌+◌, ◌*◌, ◌-◌, ◌^◌, ◌<◌, ◌≤◌, ◌≡◌, ◌≢◌, refl, sym, ap, ◌∙◌, subst, Bool, true,
  false, Option, none, some, List, [], ◌∷◌, ◌++◌, Bytes, length, length-take, length-drop,
  take-length, take, drop, get_or, leb, ltb, ◌==◌, if◌then◌else◌, Bool-cases, Option-cases, inl,
  inr, arith, codes,
}
use dht_spider.Bencode.Value as Value
use dht_spider.Bencode.Value.{Entries}
use dht_spider.Bencode.Decode.{decode_dict, fuel_for}
use dht_spider.Bencode.Encode.{Itoa}
use dht_spider.Bencode.Sound.{Yields, Yields-weaken, decode_dict-Ends}
use dht_spider.Bencode.Sound as Sound
use dht_spider.Std.Decimal.{ℤ, as_usize}
use dht_spider.Wire.Download.{
  extended, max_metadata_size, all_filled, concat, complete, Download, Outcome, waits, rejects,
  finishes, out_of_fuel, on_message, on_handshake, on_data, on_decoded, on_announced, on_size,
  on_dictionary, on_numbered, on_piece, bad_size, is_data, int_of,
}

-- The decoder of the messages has fuel enough.
abbrev pub Ends : Outcome → Type 0
Ends (waits d out peers) = Unit
Ends rejects = Unit
Ends (finishes metadata) = Unit
Ends out_of_fuel = ⊥

if-Ends : (b : Bool) (x y : Outcome) → Ends x → Ends y → Ends (if b then x else y)
if-Ends true x y h k = h
if-Ends false x y h k = k

decodes :
    (rest : Bytes)
    → length rest < 2 ^ 62
    → Yields (λ r. Unit {0}) (decode_dict (fuel_for rest) rest 0)
unfolding decode_dict
decodes [] h = Sound.rejects
decodes (b ∷ rest) h = Yields-weaken (decode_dict-Ends (b ∷ rest) h (omega arith)) (λ r k. tt)

module _ (sha1 : Bytes → Bytes) (itoa : Itoa) (info_hash : Bytes) where
  on_announced-Ends : (m : Entries) (o : Option ℤ) → Ends (on_announced itoa m o)
  unfolding on_size
  on_announced-Ends m none = tt
  on_announced-Ends m (some n) = if-Ends (ltb max_metadata_size (as_usize n)) _ _ tt tt

  complete-Ends : (d : Download) (all : List Bytes) → Ends (complete sha1 info_hash d all)
  unfolding complete
  complete-Ends d all =
      if-Ends (all_filled all) _ _ (if-Ends (bytes_eq (sha1 (concat all)) info_hash) _ _ tt tt) tt

  on_numbered-Ends :
      (d : Download) (all : List Bytes) (o : Option ℤ) (chunk : Bytes)
      → Ends (on_numbered sha1 info_hash d all o chunk)
  unfolding on_piece
  on_numbered-Ends d all none chunk = tt
  on_numbered-Ends d all (some n) chunk = if-Ends (bad_size d (as_usize n) (length chunk)) _ _ tt (
      complete-Ends d
        (if ltb (as_usize n) (length all) then Prelude.set all (as_usize n) chunk else all))

  on_decoded-Ends :
      (r : Value.Result (Entries × ℕ)) → Yields (λ r. Unit {0}) r → Ends (on_decoded itoa r)
  on_decoded-Ends _ (Sound.returns {a} h) =
      on_announced-Ends a.0 (int_of (Value.get (codes "metadata_size") a.0))
  on_decoded-Ends _ Sound.rejects = tt

  on_dictionary-Ends :
      (d : Download) (ext_id : ℕ) (rest : Bytes) (all : List Bytes) (r : Value.Result (Entries × ℕ))
      → Yields (λ r. Unit {0}) r
      → Ends (on_dictionary sha1 info_hash d ext_id rest all r)
  on_dictionary-Ends d ext_id rest all _ (Sound.returns {a} h) =
      if-Ends (is_data (Value.get (codes "msg_type") a.0)) _ _
        (on_numbered-Ends d all (int_of (Value.get (codes "piece") a.0)) _) tt
  on_dictionary-Ends d ext_id rest all _ Sound.rejects = tt

  on_handshake-Ends :
      (pieces : Option (List Bytes)) (rest : Bytes)
      → length rest < 2 ^ 62
      → Ends (on_handshake itoa pieces rest)
  unfolding on_handshake
  on_handshake-Ends (some all) rest h = tt
  on_handshake-Ends none rest h = on_decoded-Ends _ (decodes rest h)

  on_data-Ends :
      (d : Download) (ext_id : ℕ) (rest : Bytes) (pieces : Option (List Bytes))
      → length rest < 2 ^ 62
      → Ends (on_data sha1 info_hash d ext_id rest pieces)
  unfolding on_data
  on_data-Ends d ext_id rest none h = tt
  on_data-Ends d ext_id rest (some all) h = on_dictionary-Ends d ext_id rest all _ (decodes rest h)

  pub on_message-Ends :
      (d : Download) (payload : Bytes)
      → length payload < 2 ^ 62
      → Ends (on_message sha1 info_hash itoa d payload)
  unfolding on_message
  on_message-Ends d [] h = tt
  on_message-Ends d (msg_type ∷ []) h = if-Ends (msg_type == extended) _ _ tt tt
  on_message-Ends d (msg_type ∷ ext_id ∷ rest) h =
      let small : length rest < 2 ^ 62 = omega arith in
      if-Ends (msg_type == extended) _ _
        (if-Ends (ext_id == 0) _ _ (on_handshake-Ends d.pieces rest small)
          (on_data-Ends d ext_id rest d.pieces small))
        tt
