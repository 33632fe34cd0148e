-- ===== src/Wire/FetchEnds.antt =====
-- The download ends if the stream stalls, and does not if it is closed.
use dht_spider.Prelude.{
  ℕ, zero, suc, ◌^◌, ◌<◌, ◌≤◌, ◌≡◌, refl, ap, Bool, true, false, Option, none, some, [], ◌∷◌, Bytes,
  length, length-take, length-drop, take-length, take, drop, get_or, leb, ltb, ◌==◌, if◌then◌else◌,
  Bool-cases, inl, inr, arith,
}
use dht_spider.BlackList.{BlackList}
use dht_spider.Bencode.Encode.{Itoa}
use dht_spider.Wire.Frame.{
  read_message, read_exact, read_sized, read_payload, from_be_bytes, is_handshake,
}
use dht_spider.Wire.Download.{
  Download, start, Outcome, waits, rejects, finishes, out_of_fuel, on_message,
}
use dht_spider.Wire.Queue.{Request}
use dht_spider.Wire.Fetch.{
  Fetched, fails, runs, obtains, Work, idle, behind, next, received, fetch, shake, fetch_metadata,
}
use dht_spider.Wire.Ends.{Ends, on_message-Ends}

-- A message is small, and shorter than what it was read from.
Shrinks : ℕ → Option (ℕ × Bytes × Bytes) → Type 0
Shrinks n none = Unit
Shrinks n (some (size, payload, rest)) = (length payload < 2 ^ 62) × (length rest < n)

if-Shrinks :
    (n : ℕ) (b : Bool) (x y : Option (ℕ × Bytes × Bytes))
    → (b ≡ true → Shrinks n x)
    → (b ≡ false → Shrinks n y)
    → Shrinks n (if b then x else y)
if-Shrinks n true x y h k = h refl
if-Shrinks n false x y h k = k refl

read_payload-Shrinks :
    (n size : ℕ) (stream : Bytes)
    → length stream < n
    → size ≤ 1048576
    → Shrinks n (read_payload size (read_exact size false stream))
unfolding Shrinks
read_payload-Shrinks n size stream h k = elim (Bool-cases (leb size (length stream))) [
  | inl e ↦ rw e (omega (arith, length-take size stream), omega (arith, length-drop size stream))
  | inr e ↦ rw e tt
]

read_sized-Shrinks :
    (n : ℕ) (len_buf stream : Bytes)
    → length stream < n
    → Shrinks n (read_sized false (some (len_buf, stream)))
unfolding Shrinks
read_sized-Shrinks n len_buf stream h =
    let size =
      from_be_bytes (get_or len_buf 0 0) (get_or len_buf 1 0) (get_or len_buf 2 0)
        (get_or len_buf 3 0) in
    if-Shrinks n (size == 0) _ _ (λ e. (omega arith, h))
      λ e.
        if-Shrinks n (ltb 1048576 size) _ _ (λ e'. tt)
          λ e'. read_payload-Shrinks n size stream h (ground arith)

read_message-Shrinks : (stream : Bytes) → Shrinks (length stream) (read_message false stream)
unfolding read_message Shrinks
read_message-Shrinks stream = elim (Bool-cases (leb 4 (length stream))) [
  | inl e ↦ rw e (
      read_sized-Shrinks (length stream) (take 4 stream) (drop 4 stream)
        (ground (arith, length-drop 4 stream)))
  | inr e ↦ rw e tt
]

-- The task is over.
abbrev pub IsOver : Fetched → Type 0
IsOver fails = Unit
IsOver runs = ⊥
IsOver (obtains metadata) = Unit

module _ (sha1 : Bytes → Bytes) (itoa : Itoa) (info_hash : Bytes) where
  next-IsOver :
      (rest : Download → Work) (out : Outcome)
      → Ends out
      → ((d : Download) → IsOver (rest d).result)
      → IsOver (next sha1 itoa info_hash rest out).result
  next-IsOver rest (waits d out peers) h k = k d
  next-IsOver rest rejects h k = tt
  next-IsOver rest (finishes metadata) h k = tt
  next-IsOver rest out_of_fuel h k = h

  received-IsOver :
      (n : ℕ) (rest : Download → Bytes → Work) (d : Download) (o : Option (ℕ × Bytes × Bytes))
      → Shrinks n o
      → ((d : Download) (stream : Bytes) → length stream < n → IsOver (rest d stream).result)
      → IsOver (received sha1 itoa info_hash rest d o).result
  unfolding Shrinks
  received-IsOver n rest d none h k = tt
  received-IsOver n rest d (some (size, payload, stream)) h k =
      next-IsOver (λ d'. rest d' stream) (on_message sha1 info_hash itoa d payload)
        (on_message-Ends sha1 itoa info_hash d payload h.0) (λ d'. k d' stream h.1)

  -- On a stream that is not closed the download ends, by the time limits at the latest, and more
  -- rounds than the stream has bytes are enough.
  pub fetch-IsOver :
      (fuel : ℕ) (d : Download) (stream : Bytes)
      → length stream < fuel
      → IsOver (fetch sha1 itoa info_hash false fuel d stream).result
  unfolding fetch
  fetch-IsOver zero d stream h = absurd (omega arith)
  fetch-IsOver (suc fuel) d stream h =
      received-IsOver (length stream) (fetch sha1 itoa info_hash false fuel) d
        (read_message false stream) (read_message-Shrinks stream)
        (λ d' s' h'. fetch-IsOver fuel d' s' (omega arith))

  fetch-closed : (fuel : ℕ) (d : Download) → fetch sha1 itoa info_hash true fuel d [] ≡ idle runs
  unfolding fetch
  fetch-closed zero d = refl
  fetch-closed (suc fuel) d = ap (behind [] []) (fetch-closed fuel d)

drop_all : (s : Bytes) → drop (length s) s ≡ []
drop_all [] = refl
drop_all (b ∷ s) = drop_all s

read_exact_all :
    (closed : Bool) (n : ℕ) (s : Bytes) → length s ≡ n → read_exact n closed s ≡ some (s, [])
read_exact_all closed n s h =
    let there : leb n (length s) ≡ true = ground arith in
    rw (there, ← h, take-length s, drop_all s) refl

-- If the peer takes what is written to it and closes the connection behind its handshake, then the
-- task never ends: it is still at work after any number of rounds.
pub fetch_metadata-closed :
    (sha1 : Bytes → Bytes) (itoa : Itoa) (fuel : ℕ) (bl : BlackList) (now : ℕ) (peer_id : Bytes)
    (r : Request) (resp : Bytes)
    → length resp ≡ 68
    → is_handshake resp ≡ true
    → (fetch_metadata sha1 itoa fuel bl now peer_id r
        (some (record { in_time = true; sends = true; stream = resp; closed = true }))).0.result
      ≡ runs
unfolding fetch_metadata shake
fetch_metadata-closed sha1 itoa fuel bl now peer_id r resp len h =
    rw (read_exact_all true 68 resp len, h, fetch-closed sha1 itoa r.info_hash fuel start) refl
