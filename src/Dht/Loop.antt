-- ===== src/Dht/Loop.antt =====
-- Whatever the loops of `start` and `run` of src/dht.rs receive, the node's tables stay well
-- formed.
use dht_spider.Prelude.{
  All, All-weaken, ℕ, ◌<◌, ◌≡◌, ◌==◌, true, false, arith, Option, none, some, List, [], ◌∷◌, Bytes,
  codes, Bool-cases, inl, inr,
}
use dht_spider.Std.Display.{addr_string}
use dht_spider.Types as Types
use dht_spider.Types.{Node, decode_info_hash}
use dht_spider.Transaction.{get_by_index}
use dht_spider.Config.{Config}
use dht_spider.Dht.{Dht, Outside, new, get_peers_args}
use dht_spider.Dht.Response.{is_unknown}
use dht_spider.Dht.Command.{
  DhtCommand, get_peers_command, announce_peer_command, shutdown, Event, ticks, commands, receives,
  nearest, ask_new, searched, on_command, is_shutdown, step, loop, start, step_run, run,
}
use dht_spider.Dht.Acts.{Keeps, and_then-Keeps, each-Keeps, each-KeepsAll}
use dht_spider.Dht.Invariant.{IsDht, new-IsDht, ready-IsDht, ask-IsDht}
use dht_spider.Dht.ResponseKeeps.{handle_packet-Keeps}
use dht_spider.Dht.TickKeeps.{IsDrawn, tick_run-Keeps, tick_start-Keeps}

-- The random strings of a tick are as long as an id.
abbrev pub IsFed : Event → Type 0
IsFed (ticks now random lookup_host) = IsDrawn random
IsFed (commands now c) = Unit
IsFed (receives now random input addr) = Unit

module _ (o : Outside) (cfg : Config) where
  ask_new-Keeps :
      (now : ℕ) (ih : Bytes) (port : Option ℕ) (d : Dht) (n : Node)
      → IsDht cfg d
      → Keeps (IsDht cfg) (ask_new o now ih port d n)
  unfolding ask_new
  ask_new-Keeps now ih port d n h =
      elim (Bool-cases
        (is_unknown (get_by_index d.trans (codes "get_peers") (addr_string n.addr)))) [
          | inl new ↦ rw new (ask-IsDht cfg d h o now n.addr _ _ _ _ (get_peers_args o d ih))
          | inr old ↦ rw old h
        ]

  searched-Keeps :
      (now : ℕ) (port : Option ℕ) (r : Types.Result Bytes) (d : Dht)
      → IsDht cfg d
      → Keeps (IsDht cfg) (searched o now port r d)
  searched-Keeps now port (Types.ok ih) d h =
      each-Keeps (IsDht cfg) (ask_new o now ih port) (nearest d ih) (ask_new-Keeps now ih port) d h
  searched-Keeps now port (Types.err e) d h = h
  searched-Keeps now port Types.out_of_fuel d h = h

  on_command-Keeps :
      (now : ℕ) (c : DhtCommand) (d : Dht) → IsDht cfg d → Keeps (IsDht cfg) (on_command o now c d)
  unfolding on_command
  on_command-Keeps now (get_peers_command info_hash) d h =
      searched-Keeps now none (decode_info_hash o.hex_decode info_hash) d h
  on_command-Keeps now (announce_peer_command info_hash port) d h =
      searched-Keeps now (some port) (decode_info_hash o.hex_decode info_hash) d h
  on_command-Keeps now shutdown d h = h

  step-Keeps : (e : Event) (d : Dht) → IsFed e → IsDht cfg d → Keeps (IsDht cfg) (step o e d)
  unfolding step
  step-Keeps (ticks now random lookup_host) d fed h =
      tick_start-Keeps cfg o now random lookup_host d fed h
  step-Keeps (commands now c) d fed h = on_command-Keeps now c d h
  step-Keeps (receives now random input addr) d fed h =
      handle_packet-Keeps o cfg now random input addr d h

  loop-Keeps :
      (es : List Event) (d : Dht) → All IsFed es → IsDht cfg d → Keeps (IsDht cfg) (loop o es d)
  unfolding loop
  loop-Keeps [] d fed h = h
  loop-Keeps (e ∷ es) d fed h = elim (Bool-cases (is_shutdown e)) [
    | inl stops ↦ rw stops h
    | inr goes_on ↦ rw goes_on (
        and_then-Keeps (IsDht cfg) (step o e d) (loop o es) (step-Keeps e d fed.0 h)
          (λ d' h'. loop-Keeps es d' fed.1 h'))
  ]

  step_run-Keeps :
      (e : Event) → IsFed e → (d : Dht) → IsDht cfg d → Keeps (IsDht cfg) (step_run o d e)
  unfolding step_run
  step_run-Keeps (ticks now random lookup_host) fed d h =
      tick_run-Keeps cfg o now random lookup_host d fed h
  step_run-Keeps (commands now c) fed d h = h
  step_run-Keeps (receives now random input addr) fed d h =
      handle_packet-Keeps o cfg now random input addr d h

-- A new node with a `check_kbucket_period` other than zero, under `start` or `run`, that receives any sequence of ticks, commands and
-- packets, with random strings of twenty bytes, handles them all without a panic, and has then at
-- most `max_transactions` transactions, `max_infohashes` info hashes, `blacklist_max_size`
-- blacklist entries and `max_nodes` routing entries, no key twice in these tables, each transaction
-- under its id and each node of the routing cache under its address and with an id of twenty bytes,
-- a routing tree in which each leaf has a bucket with a prefix as long as the leaf is deep, and the
-- configuration that it was made with.
pub start-Keeps :
    (o : Outside) (cfg : Config) (now : ℕ) (self_id : Bytes) (es : List Event)
    → 0 < cfg.check_kbucket_period
    → All IsFed es
    → Keeps (IsDht cfg) (start o es (new cfg now self_id))
      × Keeps (IsDht cfg) (run o es (new cfg now self_id))
unfolding start run new
start-Keeps o cfg now self_id es period fed =
    let ticking : (cfg.check_kbucket_period == 0) ≡ false = ground arith in
    let d : Dht = record (new cfg now self_id) { ready = true } in
    let h = ready-IsDht cfg (new cfg now self_id) (new-IsDht cfg now self_id) in
    rw ticking (
      loop-Keeps o cfg es d fed h,
      each-KeepsAll (IsDht cfg) (step_run o) es
          (All-weaken IsFed
            (λ (e : Event). (d' : Dht) → IsDht cfg d' → Keeps (IsDht cfg) (step_run o d' e)) es
            (step_run-Keeps o cfg) fed)
          d h,
    )
