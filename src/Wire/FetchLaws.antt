-- ===== src/Wire/FetchLaws.antt =====
-- The download as a whole: what it yields, that it ends, and when it does not.
use dht_spider.Prelude.{
  ℕ, zero, suc, ◌≡◌, refl, Bool, true, false, Option, none, some, [], ◌∷◌, Bytes, if◌then◌else◌,
}
use dht_spider.BlackList as BlackList
use dht_spider.BlackList.{BlackList}
use dht_spider.Bencode.Encode.{Itoa}
use dht_spider.Wire.Frame.{read_message, read_exact, send_message, is_handshake}
use dht_spider.Wire.Download.{
  Download, start, Outcome, waits, rejects, finishes, out_of_fuel, on_message,
}
use dht_spider.Wire.Queue.{Request}
use dht_spider.Wire.Safety.{IsDownload, IsSafe, on_message-IsSafe}
use dht_spider.Wire.Fetch.{
  Fetched, fails, runs, obtains, Work, idle, behind, Connection, next, received, fetch, shake,
  extended_handshake, fetch_metadata,
}

-- What is obtained has the hash.
abbrev pub HasHash : (Bytes → Bytes) → Bytes → Fetched → Type 0
HasHash sha1 info_hash fails = Unit
HasHash sha1 info_hash runs = Unit
HasHash sha1 info_hash (obtains metadata) = sha1 metadata ≡ info_hash

abbrev pub is_none {ℓ} : {A : Type ℓ} → Option A → Bool
is_none none = true
is_none (some a) = false

module _ (sha1 : Bytes → Bytes) (itoa : Itoa) (info_hash : Bytes) where
  next-HasHash :
      (rest : Download → Work) (out : Outcome)
      → IsSafe sha1 info_hash out
      → ((d : Download) → IsDownload d → HasHash sha1 info_hash (rest d).result)
      → HasHash sha1 info_hash (next sha1 itoa info_hash rest out).result
  next-HasHash rest (waits d out peers) h k = k d h
  next-HasHash rest rejects h k = tt
  next-HasHash rest (finishes metadata) h k = h
  next-HasHash rest out_of_fuel h k = tt

  received-HasHash :
      (rest : Download → Bytes → Work) (d : Download) (o : Option (ℕ × Bytes × Bytes))
      → IsDownload d
      → ((d : Download) (stream : Bytes)
          → IsDownload d
          → HasHash sha1 info_hash (rest d stream).result)
      → HasHash sha1 info_hash (received sha1 itoa info_hash rest d o).result
  received-HasHash rest d none h k = tt
  received-HasHash rest d (some (size, payload, stream)) h k =
      next-HasHash (λ d'. rest d' stream) (on_message sha1 info_hash itoa d payload)
        (on_message-IsSafe sha1 info_hash itoa d payload h) (λ d' h'. k d' stream h')

  fetch-HasHash :
      (closed : Bool) (fuel : ℕ) (d : Download) (stream : Bytes)
      → IsDownload d
      → HasHash sha1 info_hash (fetch sha1 itoa info_hash closed fuel d stream).result
  unfolding fetch
  fetch-HasHash closed zero d stream h = tt
  fetch-HasHash closed (suc fuel) d stream h =
      received-HasHash (fetch sha1 itoa info_hash closed fuel) d (read_message closed stream) h
        (λ d' s' h'. fetch-HasHash closed fuel d' s' h')

  if-HasHash :
      (b : Bool) (x y : Work)
      → HasHash sha1 info_hash x.result
      → HasHash sha1 info_hash y.result
      → HasHash sha1 info_hash (if b then x else y).result
  if-HasHash true x y h k = h
  if-HasHash false x y h k = k

  shake-HasHash :
      (fuel : ℕ) (c : Connection) (o : Option (Bytes × Bytes))
      → HasHash sha1 info_hash (shake sha1 itoa info_hash fuel c o).result
  unfolding shake
  shake-HasHash fuel c none = tt
  shake-HasHash fuel c (some (resp, stream)) =
      if-HasHash (is_handshake resp) _ _
        (if-HasHash c.sends
          (behind (send_message (extended_handshake itoa) ∷ []) []
            (fetch sha1 itoa info_hash c.closed fuel start stream))
          (idle fails) (fetch-HasHash c.closed fuel start stream tt) tt)
        tt

-- Whatever a peer sends, what is obtained from it has the hash that was asked for; and the
-- blacklist changes if no connection leads to the peer, and only then.
pub fetch_metadata-HasHash :
    (sha1 : Bytes → Bytes) (itoa : Itoa) (fuel : ℕ) (bl : BlackList) (now : ℕ) (peer_id : Bytes)
    (r : Request) (c : Option Connection)
    → let (work, bl') = fetch_metadata sha1 itoa fuel bl now peer_id r c in
      HasHash sha1 r.info_hash work.result
      × (bl' ≡ (if is_none c then BlackList.insert bl now r.ip (some r.port) else bl))
unfolding fetch_metadata
fetch_metadata-HasHash sha1 itoa fuel bl now peer_id r none = (tt, refl)
fetch_metadata-HasHash sha1 itoa fuel bl now peer_id r (some c) = (
  if-HasHash sha1 itoa r.info_hash c.in_time
      (shake sha1 itoa r.info_hash fuel c (read_exact 68 c.closed c.stream)) (idle fails)
      (shake-HasHash sha1 itoa r.info_hash fuel c (read_exact 68 c.closed c.stream)) tt,
  refl,
)
