-- ===== src/Token.antt =====
-- src/token.rs: one token for each IP. The clock and the random bytes are arguments; the token is
-- the text that the bytes make.
pub mod Laws
mod Tests
use dht_spider.Prelude.{
  ℕ, ◌-◌, Bool, true, false, Option, none, some, List, [], ◌∷◌, Bytes, ltb, if◌then◌else◌,
}
use dht_spider.Std.Net.{IpAddr}
use dht_spider.Std.Order.{bytes_eq}
use dht_spider.Std.Utf8.{from_utf8_lossy}
use dht_spider.Std.Map as Map
use dht_spider.Std.Map.{ip_Eq}

pub record TokenManager : Type 0 where
  pub map : List (IpAddr × (Bytes × ℕ))
  pub expiry : ℕ

unfoldable pub new : ℕ → TokenManager
new expiry = record { map = []; expiry = expiry }

-- A new token in place of whatever the IP had.
unfoldable pub issue : TokenManager → ℕ → Bytes → IpAddr → Bytes × TokenManager
unfolding Map.insert from_utf8_lossy
issue m now random ip =
    let s = from_utf8_lossy random in (s, record m { map = Map.insert ip (s, now) m.map })

abbrev reuse : TokenManager → ℕ → Option (Bytes × ℕ) → Bytes × TokenManager → Bytes × TokenManager
reuse m now none fresh = fresh
reuse m now (some (s, created)) fresh = if ltb (now - created) m.expiry then (s, m) else fresh

unfoldable pub token : TokenManager → ℕ → Bytes → IpAddr → Bytes × TokenManager
unfolding issue Map.get
token m now random ip = reuse m now (Map.get ip m.map) (issue m now random ip)

abbrev matches : Bytes → Option (Bytes × ℕ) → Bool
matches given none = false
matches given (some (s, created)) = bytes_eq s given

-- The entry is removed whether the token is right or not.
unfoldable pub check : TokenManager → IpAddr → Bytes → Bool × TokenManager
unfolding Map.get Map.remove bytes_eq
check m ip given = (matches given (Map.get ip m.map), record m { map = Map.remove ip m.map })

unfoldable pub clear_expired : TokenManager → ℕ → TokenManager
unfolding Map.retain
clear_expired m now = record m { map = Map.retain (λ v. ltb (now - v.1) m.expiry) m.map }
