-- ===== src/Transaction.antt =====
-- src/transaction.rs: the queries in flight, by transaction id, and an index by kind and address.
-- A transaction's `responder` says whether its sender is still there; `Instant`s are nanoseconds.
pub mod Ids
pub mod Keyed
pub mod Table
pub mod Timeouts
mod Tests
use mathlib.Core.Option
use dht_spider.Prelude.{
  ℕ, zero, suc, ◌+◌, ◌-◌, ◌*◌, ◌%◌, ◌^◌, min, max, Bool, true, false, Option, none, some, List, [],
  ◌∷◌, ◌++◌, Bytes, length, ltb, leb, if◌then◌else◌,
}
use dht_spider.Std.Net.{SocketAddr}
use dht_spider.Std.Display.{addr_string}
use dht_spider.Std.Map as Map
use dht_spider.Std.Map.{bytes_Eq}
use dht_spider.Util.{int2bytes}

pub record Transaction : Type 0 where
  pub trans_id_bytes : Bytes
  pub addr : SocketAddr
  pub qtype : Bytes
  pub responder : Bool
  pub info_hash : Option Bytes
  pub target : Option Bytes
  pub announce_port : Option ℕ
  pub announce_implied_port : Bool
  pub created_at : ℕ
  pub retries : ℕ

abbrev pub max_transactions : ℕ
max_transactions = 10000

pub record TransactionManager : Type 0 where
  pub cursor : ℕ
  pub max_cursor : ℕ
  pub map : List (Bytes × Transaction)
  pub index : List (Bytes × Bytes)

unfoldable pub new : ℕ → TransactionManager
new max_cursor = record { cursor = 0; max_cursor = max_cursor; map = []; index = [] }

-- `fetch_add` wraps at 64 bits.
unfoldable pub gen_id : TransactionManager → Bytes × TransactionManager
gen_id m = (int2bytes (m.cursor % m.max_cursor), record m { cursor = (m.cursor + 1) % 2 ^ 64 })

-- `format!("{}:{}", query_type, address)`
abbrev pub gen_index_key : Bytes → Bytes → Bytes
gen_index_key query_type address = query_type ++ b':' ∷ address

unfoldable pub insert : TransactionManager → Transaction → Bool × TransactionManager
unfolding Map.insert
insert m trans =
    let key = trans.trans_id_bytes in
    let idx = gen_index_key trans.qtype (addr_string trans.addr) in
    if leb max_transactions (length m.map)
    then (false, m)
    else (true, record m { map = Map.insert key trans m.map; index = Map.insert idx key m.index })

unfoldable pub get_by_trans_id : TransactionManager → Bytes → Option Transaction
unfolding Map.get
get_by_trans_id m tid = Map.get tid m.map

unfoldable pub get_by_index : TransactionManager → Bytes → Bytes → Option Transaction
unfolding Map.get
get_by_index m query_type address = elim (Map.get (gen_index_key query_type address) m.index) [
  | none ↦ none
  | some key ↦ Map.get key m.map
]

abbrev taken : Option Transaction → Bool
taken none = false
taken (some t) = t.responder

-- Whether a responder was told, and the table without the transaction. The index keeps its entry.
unfoldable pub finish_by_trans_id : TransactionManager → Bytes → Bool × TransactionManager
unfolding Map.get Map.remove
finish_by_trans_id m tid = (taken (Map.get tid m.map), record m { map = Map.remove tid m.map })

abbrev pub len : TransactionManager → ℕ
len m = length m.map

-- The seconds that a transaction waits: the base, doubled for each retry, within 64 bits.
unfoldable pub wait_secs : ℕ → ℕ → ℕ
wait_secs base_secs retries =
    let factor = if leb 31 retries then 2 ^ 32 - 1 else 2 ^ retries in
    max (min (base_secs * factor) (2 ^ 64 - 1)) base_secs

unfoldable pub is_due : ℕ → ℕ → Transaction → Bool
unfolding wait_secs
is_due now base_secs t = leb (wait_secs base_secs t.retries * 10 ^ 9) (now - t.created_at)

-- The loop of `scan_timeouts`: the transactions to send again, and the ids to give up.
unfoldable pub scan : ℕ → ℕ → ℕ → List (Bytes × Transaction) → List Transaction × List Bytes
scan now base_secs max_retries [] = ([], [])
scan now base_secs max_retries ((tid, t) ∷ m) =
    let (to_retry, to_remove) = scan now base_secs max_retries m in
    if is_due now base_secs t
    then (if leb max_retries t.retries
        then (to_retry, tid ∷ to_remove)
        else (t ∷ to_retry, to_remove))
    else (to_retry, to_remove)

unfoldable pub scan_timeouts : TransactionManager → ℕ → ℕ → ℕ → List Transaction × List Bytes
unfolding scan is_due
scan_timeouts m now base_secs max_retries = scan now base_secs max_retries m.map

abbrev pub retried : ℕ → Transaction → Transaction
retried now t = record t { retries = min (t.retries + 1) 255; created_at = now }

unfoldable pub mark_retry : TransactionManager → ℕ → Bytes → TransactionManager
unfolding Map.get Map.insert
mark_retry m now tid = elim (Map.get tid m.map) [
  | none ↦ m
  | some t ↦ record m { map = Map.insert tid (retried now t) m.map }
]
