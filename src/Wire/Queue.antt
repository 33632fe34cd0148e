-- ===== src/Wire/Queue.antt =====
-- The requests of src/wire.rs and what `WireRunner::run` does with one: which download it starts,
-- and what becomes of its queue later. `hex::encode`, of the crate hex, is a parameter. `Instant`s are
-- nanoseconds.
use dht_spider.Prelude.{
  ℕ, zero, suc, ◌-◌, Bool, true, false, not, ◌||◌, Option, none, some, List, [], ◌∷◌, ◌++◌, Bytes,
  length, ltb, ◌==◌, if◌then◌else◌,
}
use dht_spider.Std.Decimal.{decimal}
use dht_spider.Std.Map as Map
use dht_spider.Std.Map.{bytes_Eq}
use dht_spider.BlackList as BlackList
use dht_spider.BlackList.{BlackList, secs}

pub record Request : Type 0 where
  pub info_hash : Bytes
  pub ip : Bytes
  pub port : ℕ

abbrev pub Queue : Type 0
Queue = List (Bytes × ℕ)

pub record Wire : Type 0 where
  pub blacklist : BlackList
  pub queue : Queue

-- The state of `run`. The queue is a bare `DashMap`, whose `clone` copies the entries: the task
-- that cleans has the copy of the start, and each download has the copy that was made with it. The
-- blacklist is behind an `Arc`, and shared.
pub record Runner : Type 0 where
  pub wire : Wire
  pub queue_clean : Queue
  pub tasks : List (Request × Queue)

unfoldable pub new : ℕ → Wire
unfolding BlackList.new
new blacklist_size = record { blacklist = BlackList.new blacklist_size; queue = [] }

unfoldable pub launch : Wire → Runner
launch w = record { wire = w; queue_clean = w.queue; tasks = [] }

-- `WireHandle::request`
unfoldable pub request : Bytes → Bytes → ℕ → Option Request
request info_hash ip port =
    if length info_hash == 20
    then some (record { info_hash = info_hash; ip = ip; port = port })
    else none

module _ (hex_encode : Bytes → Bytes) where
  -- `format!("{}:{}:{}", hex::encode(info_hash), ip, port)`
  abbrev pub request_key : Request → Bytes
  request_key r = hex_encode r.info_hash ++ b':' ∷ (r.ip ++ b':' ∷ decimal r.port)

  -- One round of the loop: whether a download starts.
  unfoldable pub on_request : Wire → ℕ → Request → Bool × Wire
  unfolding BlackList.contains Map.contains_key Map.insert
  on_request w now r =
      let key = request_key r in
      if not (length r.info_hash == 20)
        || BlackList.contains w.blacklist now r.ip (some r.port)
        || Map.contains_key key w.queue
      then (false, w)
      else (true, record w { queue = Map.insert key now w.queue })

  unfoldable pub receive : Runner → ℕ → Request → Runner
  unfolding on_request
  receive s now r =
      let (starts, w) = on_request s.wire now r in
      record s { wire = w; tasks = if starts then s.tasks ++ (r, w.queue) ∷ [] else s.tasks }

  abbrev pub done_at : ℕ → List (Request × Queue) → List (Request × Queue)
  done_at i [] = []
  done_at zero ((r, queue) ∷ tasks) = (r, Map.remove (request_key r) queue) ∷ tasks
  done_at (suc i) (task ∷ tasks) = task ∷ done_at i tasks

  -- A download is over, with whatever result: the blacklist is what `fetch_metadata` left.
  unfoldable pub on_done : Runner → ℕ → BlackList → Runner
  unfolding Map.remove
  on_done s i blacklist = record s {
    wire = record s.wire { blacklist = blacklist };
    tasks = done_at i s.tasks;
  }

-- Every three minutes; the clock has run for ten.
unfoldable pub clean : Runner → ℕ → Runner
unfolding BlackList.clear_expired Map.retain
clean s now = record s {
  wire = record s.wire { blacklist = BlackList.clear_expired s.wire.blacklist now };
  queue_clean = Map.retain (λ v. ltb (now - secs 600) v) s.queue_clean;
}

-- What happens to a runner, at which time.
pub data Event : Type 0 where
  received : ℕ → Request → Event
  done : ℕ → BlackList → Event
  cleaned : ℕ → Event

module _ (hex_encode : Bytes → Bytes) where
  abbrev pub on_event : Runner → Event → Runner
  on_event s (received now r) = receive hex_encode s now r
  on_event s (done i blacklist) = on_done hex_encode s i blacklist
  on_event s (cleaned now) = clean s now

  unfoldable pub run : Runner → List Event → Runner
  unfolding receive on_done clean
  run s [] = s
  run s (e ∷ es) = run (on_event s e) es
