-- ===== src/Wire/QueueLaws.antt =====
-- A request is taken up once and never again.
use dht_spider.Prelude.{
  ℕ, ◌≡◌, refl, true, false, not, ◌||◌, some, List, [], ◌∷◌, arith, Bytes, length, ◌==◌, Bool-cases,
  inl, inr,
}
use dht_spider.Std.Map as Map
use dht_spider.Std.Map.{bytes_Eq, bytes_eq_refl, contains_key-insert}
use dht_spider.BlackList as BlackList
use dht_spider.Wire.Queue.{
  Request, Wire, Runner, Event, received, done, cleaned, request_key, on_request, receive, on_done,
  clean, on_event, run,
}

module _ (hex_encode : Bytes → Bytes) (key : Bytes) where
  on_request-keeps :
      (w : Wire) (now : ℕ) (r : Request)
      → Map.contains_key key w.queue ≡ true
      → Map.contains_key key (on_request hex_encode w now r).1.queue ≡ true
  unfolding on_request
  on_request-keeps w now r h =
      let bad = not (length r.info_hash == 20) in
      let banned = BlackList.contains w.blacklist now r.ip (some r.port) in
      let queued = Map.contains_key (request_key hex_encode r) w.queue in
      elim (Bool-cases (bad || banned || queued)) [
        | inl refused ↦ rw refused h
        | inr taken ↦
            rw (taken, contains_key-insert key (request_key hex_encode r) now w.queue, h)
              (ground arith)
      ]

  on_event-keeps :
      (s : Runner) (e : Event)
      → Map.contains_key key s.wire.queue ≡ true
      → Map.contains_key key (on_event hex_encode s e).wire.queue ≡ true
  unfolding receive on_done clean
  on_event-keeps s (received now r) h = on_request-keeps s.wire now r h
  on_event-keeps s (done i blacklist) h = h
  on_event-keeps s (cleaned now) h = h

  run-keeps :
      (s : Runner) (es : List Event)
      → Map.contains_key key s.wire.queue ≡ true
      → Map.contains_key key (run hex_encode s es).wire.queue ≡ true
  unfolding run
  run-keeps s [] h = h
  run-keeps s (e ∷ es) h = run-keeps (on_event hex_encode s e) es (on_event-keeps s e h)

module _ (hex_encode : Bytes → Bytes) where
  on_request-queued :
      (w : Wire) (now : ℕ) (r : Request)
      → Map.contains_key (request_key hex_encode r) w.queue ≡ true
      → (on_request hex_encode w now r).0 ≡ false
  unfolding on_request
  on_request-queued w now r h =
      let bad = not (length r.info_hash == 20) in
      let banned = BlackList.contains w.blacklist now r.ip (some r.port) in
      elim (Bool-cases (bad || banned)) [
        | inl refused ↦ rw h (ground arith)
        | inr taken ↦ rw h (ground arith)
      ]

  on_request-starts :
      (w : Wire) (now : ℕ) (r : Request)
      → (on_request hex_encode w now r).0 ≡ true
      → Map.contains_key (request_key hex_encode r) (on_request hex_encode w now r).1.queue ≡ true
  unfolding on_request
  on_request-starts w now r started =
      let key = request_key hex_encode r in
      let bad = not (length r.info_hash == 20) in
      let banned = BlackList.contains w.blacklist now r.ip (some r.port) in
      let queued = Map.contains_key key w.queue in
      elim (Bool-cases (bad || banned || queued)) [
        | inl refused ↦ cc (rw refused at started)
        | inr taken ↦ rw (taken, contains_key-insert key key now w.queue, bytes_eq_refl key) refl
      ]

  -- Once a request has started a download, the same request never starts one again, whatever other
  -- requests come, whichever downloads end, this one too and whatever they leave of the blacklist,
  -- and however often the queue is cleaned: what is removed is removed from copies of the queue.
  pub on_request-run :
      (s : Runner) (now now' : ℕ) (r : Request) (es : List Event)
      → (on_request hex_encode s.wire now r).0 ≡ true
      → (on_request hex_encode (run hex_encode (receive hex_encode s now r) es).wire now' r).0
        ≡ false
  unfolding receive
  on_request-run s now now' r es started =
      on_request-queued (run hex_encode (receive hex_encode s now r) es).wire now' r (
        run-keeps hex_encode (request_key hex_encode r) (receive hex_encode s now r) es
          (on_request-starts s.wire now r started))
