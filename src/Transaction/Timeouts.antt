-- ===== src/Transaction/Timeouts.antt =====
-- The scan for timeouts: what it gives up, what it sends again, and how the wait grows.
use native.Mathlib.Nat.{pow-suc, mul_assoc}
use dht_spider.Prelude.{
  ℕ, zero, suc, ◌+◌, ◌-◌, ◌*◌, ◌^◌, ◌<◌, ◌≤◌, min, ◌≡◌, refl, sym, ap, ◌∙◌, Bool, false, ◌&&◌, ◌||◌,
  Option, none, some, List, [], ◌∷◌, arith, Bytes, leb, Bool-cases, inl, inr,
}
use dht_spider.Std.Order.{bytes_eq, bytes_eq_iff}
use dht_spider.Std.Map as Map
use dht_spider.Std.Map.{bytes_Eq, IsMap, get-insert_self, get-absent}
use dht_spider.Transaction.{
  Transaction, TransactionManager, wait_secs, is_due, scan, scan_timeouts, mark_retry, retried,
  get_by_trans_id,
}

unfoldable pub listed : Bytes → List Bytes → Bool
listed tid [] = false
listed tid (t ∷ ts) = bytes_eq tid t || listed tid ts

abbrev pub gives_up : ℕ → ℕ → ℕ → Option Transaction → Bool
gives_up now base_secs max_retries none = false
gives_up now base_secs max_retries (some t) = is_due now base_secs t && leb max_retries t.retries

scan-listed :
    (now base_secs max_retries : ℕ) (tid : Bytes) (m : List (Bytes × Transaction))
    → IsMap m
    → listed tid (scan now base_secs max_retries m).1
      ≡ gives_up now base_secs max_retries (Map.get tid m)
unfolding scan listed Map.get
scan-listed now base_secs max_retries tid [] h = refl
scan-listed now base_secs max_retries tid ((key, t) ∷ m) h = elim (Bool-cases (bytes_eq tid key)) [
  | inl e ↦
      let same = (bytes_eq_iff tid key).0 e in
      let absent : Map.get tid m ≡ none = get-absent tid m (rw same h.0) in
      ground (arith, scan-listed now base_secs max_retries tid m h.1)
  | inr e ↦ ground (arith, scan-listed now base_secs max_retries tid m h.1)
]

-- The ids that a scan gives up are exactly those in the table whose wait is over and whose retries
-- are used up.
pub listed-scan_timeouts :
    (m : TransactionManager) (now base_secs max_retries : ℕ) (tid : Bytes)
    → IsMap m.map
    → listed tid (scan_timeouts m now base_secs max_retries).1
      ≡ gives_up now base_secs max_retries (get_by_trans_id m tid)
unfolding scan_timeouts get_by_trans_id
listed-scan_timeouts m now base_secs max_retries tid h =
    scan-listed now base_secs max_retries tid m.map h

base-le : (base r : ℕ) → base ≤ base * 2 ^ r
base-le base zero = omega arith
base-le base (suc r) =
    let p : base * 2 ^ suc r ≡ (base * 2 ^ r) * 2 =
      ap (λ (x : ℕ). base * x) (pow-suc 2 r) ∙ sym (mul_assoc base (2 ^ r) 2) in
    omega (arith, p, base-le base r)

-- The wait doubles with each of the first thirty retries, as long as it fits into 64 bits.
wait_secs-suc :
    (base r : ℕ)
    → r < 30
    → base * 2 ^ suc r < 2 ^ 64
    → wait_secs base (suc r) ≡ 2 * wait_secs base r
unfolding wait_secs
wait_secs-suc base r h k =
    let few : leb 31 r ≡ false = ground arith in
    let few' : leb 31 (suc r) ≡ false = ground arith in
    let p : base * 2 ^ suc r ≡ (base * 2 ^ r) * 2 =
      ap (λ (x : ℕ). base * x) (pow-suc 2 r) ∙ sym (mul_assoc base (2 ^ r) 2) in
    let grows = base-le base r in
    let grows' = base-le base (suc r) in rw (few, few') (omega (arith, p, grows, grows', k))

-- A transaction that was sent again is left alone for twice the time that it was left alone before.
is_due-mark_retry :
    (m : TransactionManager) (now now' base_secs : ℕ) (tid : Bytes) (t : Transaction)
    → get_by_trans_id m tid ≡ some t
    → t.retries < 30
    → base_secs * 2 ^ suc t.retries < 2 ^ 64
    → now' - now < 2 * wait_secs base_secs t.retries * 10 ^ 9
    → (t' : Transaction) × (get_by_trans_id (mark_retry m now tid) tid ≡ some t')
      × (is_due now' base_secs t' ≡ false)
unfolding mark_retry get_by_trans_id is_due
is_due-mark_retry m now now' base_secs tid t found few fits early =
    let more : min (t.retries + 1) 255 ≡ suc t.retries = ground arith in
    let longer = wait_secs-suc base_secs t.retries few fits in
    let late : leb (wait_secs base_secs (suc t.retries) * 10 ^ 9) (now' - now) ≡ false =
      rw longer (ground arith) in
    (
      retried now t,
      rw (found, mark_retry) (get-insert_self tid (retried now t) m.map),
      rw more late,
    )
