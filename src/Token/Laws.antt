-- ===== src/Token/Laws.antt =====
-- A token is accepted once, from the IP that it was given to, and then no more.
use dht_spider.Prelude.{
  ℕ, ◌+◌, ◌-◌, ◌<◌, ◌≤◌, ◌≡◌, refl, ◌∙◌, true, false, some, arith, Bytes, ltb, lt→ltb, Bool-cases,
  Option-cases, inl, inr,
}
use dht_spider.Std.Net.{IpAddr}
use dht_spider.Std.Order.{bytes_eq}
use dht_spider.Std.Utf8.{from_utf8_lossy}
use dht_spider.Std.Map as Map
use dht_spider.Std.Map.{
  ip_Eq, IsMap, bytes_eq_refl, get-insert_self, get-insert_ne, get-remove_self, get-remove_ne,
  get-retain,
}
use dht_spider.Token.{TokenManager, issue, token, check}

-- What `token` hands out is what the table then holds.
token-get :
    (m : TokenManager) (now : ℕ) (random : Bytes) (ip : IpAddr)
    → (created : ℕ) × (Map.get ip (token m now random ip).1.map
        ≡ some ((token m now random ip).0, created))
unfolding token
token-get m now random ip = elim (Option-cases (Map.get ip m.map)) [
  | inl e ↦ (now, rw (e, token) (get-insert_self ip (from_utf8_lossy random, now) m.map))
  | inr ((s, created), e) ↦ elim (Bool-cases (ltb (now - created) m.expiry)) [
    | inl live ↦ (created, rw (e, token, live) e)
    | inr old ↦ (now, rw (e, token, old) (get-insert_self ip (from_utf8_lossy random, now) m.map))
  ]
]

-- Whether a text is accepted.
pub check-token_iff :
    (m : TokenManager) (now : ℕ) (random : Bytes) (ip : IpAddr) (given : Bytes)
    → (check (token m now random ip).1 ip given).0 ≡ bytes_eq (token m now random ip).0 given
unfolding check
check-token_iff m now random ip given =
    let (created, held) = token-get m now random ip in rw held refl

pub check-check :
    (m : TokenManager) (ip : IpAddr) (given again : Bytes)
    → (check (check m ip given).1 ip again).0 ≡ false
unfolding check
check-check m ip given again = rw (get-remove_self ip m.map) refl

-- The token that an IP got is accepted from that IP, whatever the time, and only once: a second
-- announcement with it fails.
pub check-token :
    (m : TokenManager) (now : ℕ) (random : Bytes) (ip : IpAddr)
    → let s = (token m now random ip).0 in
      let m' = (token m now random ip).1 in
      ((check m' ip s).0 ≡ true) × ((check (check m' ip s).1 ip s).0 ≡ false)
check-token m now random ip =
    let (s, m') = token m now random ip in
    (check-token_iff m now random ip s ∙ bytes_eq_refl s, check-check m' ip s s)

-- From the IP another text is refused, and the refusal too uses up the token.
pub check-token_ne :
    (m : TokenManager) (now : ℕ) (random : Bytes) (ip : IpAddr) (given : Bytes)
    → let s = (token m now random ip).0 in
      let m' = (token m now random ip).1 in
      bytes_eq s given ≡ false
      → ((check m' ip given).0 ≡ false) × ((check (check m' ip given).1 ip s).0 ≡ false)
check-token_ne m now random ip given h =
    let (s, m') = token m now random ip in
    (check-token_iff m now random ip given ∙ h, check-check m' ip given s)

-- Within the expiry time an IP gets the same token again, and the table does not change.
pub token-issue :
    (m : TokenManager) (now now' : ℕ) (random random' : Bytes) (ip : IpAddr)
    → now ≤ now'
    → now' < now + m.expiry
    → token (issue m now random ip).1 now' random' ip ≡ issue m now random ip
unfolding token issue
token-issue m now now' random random' ip le lt =
    let live : ltb (now' - now) m.expiry ≡ true = lt→ltb (now' - now) m.expiry (omega arith) in
    rw (get-insert_self ip (from_utf8_lossy random, now) m.map, live) refl
