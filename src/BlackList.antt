-- ===== src/BlackList.antt =====
-- src/blacklist.rs: blocked addresses, by IP or by IP and port, that expire after an hour.
-- An `Instant` is a number of nanoseconds; each function that reads the clock takes the time `now`.
pub mod Laws
mod Tests
use dht_spider.Prelude.{
  ℕ, ◌-◌, ◌*◌, ◌^◌, Bool, true, false, Option, none, some, List, [], ◌∷◌, ◌++◌, Bytes, length, ltb,
  leb, if◌then◌else◌,
}
use dht_spider.Std.Decimal.{decimal}
use dht_spider.Std.Map as Map
use dht_spider.Std.Map.{bytes_Eq}

pub record BlackList : Type 0 where
  pub map : List (Bytes × ℕ)
  pub max_size : ℕ
  pub expiry : ℕ

abbrev pub secs : ℕ → ℕ
secs n = n * 10 ^ 9

unfoldable pub new : ℕ → BlackList
new max_size = record { map = []; max_size = max_size; expiry = secs 3600 }

-- `format!("{}:{}", ip, p)`
abbrev pub key : Bytes → Option ℕ → Bytes
key ip (some p) = ip ++ b':' ∷ decimal p
key ip none = ip

unfoldable pub insert : BlackList → ℕ → Bytes → Option ℕ → BlackList
unfolding Map.insert
insert b now ip port =
    if leb b.max_size (length b.map)
    then b
    else record b { map = Map.insert (key ip port) now b.map }

unfoldable pub remove : BlackList → Bytes → Option ℕ → BlackList
unfolding Map.remove
remove b ip port = record b { map = Map.remove (key ip port) b.map }

abbrev live : ℕ → ℕ → Option ℕ → Bool
live now expiry none = false
live now expiry (some created) = ltb (now - created) expiry

unfoldable pub contains : BlackList → ℕ → Bytes → Option ℕ → Bool
unfolding Map.contains_key Map.get
contains b now ip port =
    if Map.contains_key ip b.map then true else live now b.expiry (Map.get (key ip port) b.map)

unfoldable pub clear_expired : BlackList → ℕ → BlackList
unfolding Map.retain
clear_expired b now = record b { map = Map.retain (λ created. ltb (now - created) b.expiry) b.map }
