-- ===== src/Logger.antt =====
-- src/logger.rs: the name of the log file of an hour, and which file a line goes to. The clock is
-- an argument, and so is whether the file opens.
mod Tests
use dht_spider.Prelude.{
  ℕ, zero, suc, ◌+◌, ◌-◌, ◌*◌, ◌/◌, ◌%◌, ◌^◌, Bool, true, false, not, ◌&&◌, ◌||◌, Option, none,
  some, List, [], ◌∷◌, ◌++◌, Bytes, length, replicate, ltb, leb, ◌==◌, if◌then◌else◌,
}
use dht_spider.Std.Decimal.{ℤ, pos, negsuc, decimal}
use dht_spider.Std.Order.{bytes_eq}
use dht_spider.Std.Int.{minus, ◌+ℤ◌, ◌-ℤ◌, times, quot, divides, below, padded}

unfoldable pub is_leap : ℤ → Bool
is_leap y = divides 4 y && (not (divides 100 y) || divides 400 y)

-- The loop over the months, from the given one: the month, or 0, and the days that are left.
unfoldable pub month_of : ℕ → ℤ → List ℕ → ℕ × ℤ
month_of i day [] = (0, day)
month_of i day (md ∷ month_days) =
    let later = month_of (i + 1) (day -ℤ pos md) month_days in
    if below day md then (i + 1, day) else later

-- `ts as i64`
abbrev pub as_i64 : ℕ → ℤ
as_i64 ts = if leb (2 ^ 63) ts then minus (2 ^ 64 - ts) else pos ts

abbrev month_days : ℤ → List ℕ
month_days year =
    31
    ∷ (28 + (if is_leap year then 1 else 0))
    ∷ 31
    ∷ 30
    ∷ 31
    ∷ 30
    ∷ 31
    ∷ 31
    ∷ 30
    ∷ 31
    ∷ 30
    ∷ 31
    ∷ []

unfoldable pub hour_key : ℕ → Bytes
unfolding decimal is_leap month_of
hour_key ts =
    let secs = as_i64 ts in
    let days = quot secs 86400 in
    let hour = quot (secs -ℤ times days 86400) 3600 in
    let unix_days = days -ℤ pos (1970 * 365 + 492) in
    let y400 = quot unix_days 146097 in
    let rem = unix_days -ℤ times y400 146097 in
    let y100 = quot rem 36524 in
    let rem1 = rem -ℤ times y100 36524 in
    let y4 = quot rem1 1461 in
    let rem2 = rem1 -ℤ times y4 1461 in
    let y1 = quot rem2 365 in
    let doy = rem2 -ℤ times y1 365 in
    let year = pos 1970 +ℤ times y400 400 +ℤ times y100 100 +ℤ times y4 4 +ℤ y1 in
    let (month, day) = month_of 0 doy (month_days year) in
    padded 4 year
    ++ b'-' ∷ (padded 2 (pos month) ++ b'-' ∷ (padded 2 (day +ℤ pos 1) ++ b'_' ∷ padded 2 hour))

-- The key of the file that is open.
pub record HourlyLogger : Type 0 where
  pub file : Option Bytes

unfoldable pub new : HourlyLogger
new = record { file = none }

abbrev is_open : Bytes → Option Bytes → Bool
is_open key none = false
is_open key (some cur_key) = bytes_eq cur_key key

-- The logger, and the file with the line that is written to it; a file that does not open is passed
-- over.
unfoldable pub log : HourlyLogger → ℕ → Bool → Bytes → HourlyLogger × Option (Bytes × Bytes)
unfolding hour_key bytes_eq
log l ts opens line =
    let key = hour_key ts in
    if is_open key l.file
    then (l, some (key, line))
    else if opens
    then (record { file = some key }, some (key, line))
    else (l, none)
