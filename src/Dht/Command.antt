-- ===== src/Dht/Command.antt =====
-- The commands of src/command.rs and src/dht.rs, and the loops of `start` and `run` as folds over
-- what they receive.
use dht_spider.Prelude.{
  ℕ, Bool, true, false, Option, none, some, List, [], ◌∷◌, Bytes, codes, ◌==◌, if◌then◌else◌,
}
use dht_spider.Std.Net.{SocketAddr}
use dht_spider.Std.Display.{addr_string}
use dht_spider.Types as Types
use dht_spider.Types.{Node, DhtError, not_ready, get_peers_response_not_set, decode_info_hash}
use dht_spider.Transaction.{get_by_index}
use dht_spider.Routing.Table.{len}
use dht_spider.Routing.Queries.{neighbors_by_target}
use dht_spider.Dht.{Dht, Outside, Act, quiet, and_then, each, ask, ask_get_peers}
use dht_spider.Dht.Response.{is_unknown, handle_packet}
use dht_spider.Dht.Tick.{tick_run, tick_start}

pub data DhtCommand : Type 0 where
  get_peers_command : Bytes → DhtCommand
  announce_peer_command : Bytes → ℕ → DhtCommand
  shutdown : DhtCommand

-- Declared, and used by no code.
data DhtEvent : Type 0 where
  peer_found announced get_peers_request : Bytes → Bytes → ℕ → DhtEvent

-- What the loop of `start` waits for, with the clock, the random bytes and the resolver's answers.
pub data Event : Type 0 where
  ticks : ℕ → (ℕ → Bytes) → (Bytes → List SocketAddr) → Event
  commands : ℕ → DhtCommand → Event
  receives : ℕ → Bytes → Bytes → SocketAddr → Event

abbrev pub nearest : Dht → Bytes → List Node
nearest d ih = neighbors_by_target d.routing ih (len d.routing)

abbrev pub is_shutdown : Event → Bool
is_shutdown (commands now shutdown) = true
is_shutdown (commands now (get_peers_command info_hash)) = false
is_shutdown (commands now (announce_peer_command info_hash port)) = false
is_shutdown (ticks now random lookup_host) = false
is_shutdown (receives now random input addr) = false

module _ (o : Outside) where
  unfoldable pub ask_each : ℕ → Bytes → Dht → Node → Act
  unfolding ask
  ask_each now ih d n = some (ask_get_peers o now n.addr ih none d)

  -- One query under way for each address at most.
  unfoldable pub ask_new : ℕ → Bytes → Option ℕ → Dht → Node → Act
  unfolding ask get_by_index addr_string
  ask_new now ih announce_port d n =
      if is_unknown (get_by_index d.trans (codes "get_peers") (addr_string n.addr))
      then some (ask_get_peers o now n.addr ih announce_port d)
      else quiet d

  abbrev pub asked : ℕ → Types.Result Bytes → Dht → Types.Result Act
  asked now (Types.ok ih) d = Types.ok (each (ask_each now ih) (nearest d ih) d)
  asked now (Types.err e) d = Types.err e
  asked now Types.out_of_fuel d = Types.out_of_fuel

  -- The method `get_peers`.
  unfoldable pub get_peers : ℕ → Bytes → Dht → Types.Result Act
  unfolding ask_each each neighbors_by_target decode_info_hash
  get_peers now info_hash d =
      if d.ready
      then (if d.callbacks.on_get_peers_response
          then asked now (decode_info_hash o.hex_decode info_hash) d
          else Types.err get_peers_response_not_set)
      else Types.err not_ready

  abbrev pub searched : ℕ → Option ℕ → Types.Result Bytes → Dht → Act
  searched now announce_port (Types.ok ih) d = each (ask_new now ih announce_port) (nearest d ih) d
  searched now announce_port (Types.err e) d = quiet d
  searched now announce_port Types.out_of_fuel d = quiet d

  unfoldable pub on_command : ℕ → DhtCommand → Dht → Act
  unfolding ask_new each neighbors_by_target decode_info_hash
  on_command now (get_peers_command info_hash) d =
      searched now none (decode_info_hash o.hex_decode info_hash) d
  on_command now (announce_peer_command info_hash port) d =
      searched now (some port) (decode_info_hash o.hex_decode info_hash) d
  on_command now shutdown d = quiet d

  unfoldable pub step : Event → Dht → Act
  unfolding tick_start on_command handle_packet
  step (ticks now random lookup_host) d = tick_start o now random lookup_host d
  step (commands now c) d = on_command now c d
  step (receives now random input addr) d = handle_packet o now random input addr d

  unfoldable pub loop : List Event → Dht → Act
  unfolding step
  loop [] d = quiet d
  loop (e ∷ es) d =
      let rest = loop es in if is_shutdown e then quiet d else and_then (step e d) rest

  -- `start`, up to what has been received so far.
  -- `interval` of tokio panics for a period of zero.
  abbrev pub with_interval : Dht → Act → Act
  with_interval d work = if d.cfg.check_kbucket_period == 0 then none else work

  unfoldable pub start : List Event → Dht → Act
  unfolding loop
  start es d = with_interval d (loop es (record d { ready = true }))

  -- One round of the loop of `run`, which takes no commands.
  unfoldable pub step_run : Dht → Event → Act
  unfolding tick_run handle_packet
  step_run d (ticks now random lookup_host) = tick_run o now random lookup_host d
  step_run d (commands now c) = quiet d
  step_run d (receives now random input addr) = handle_packet o now random input addr d

  -- `run`, up to what has been received so far.
  unfoldable pub run : List Event → Dht → Act
  unfolding step_run each
  run es d = with_interval d (each step_run es (record d { ready = true }))
