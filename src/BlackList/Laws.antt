-- ===== src/BlackList/Laws.antt =====
-- How long an entry blocks, what else an operation changes, and the bound on the table.
use dht_spider.Prelude.{
  ℕ, ◌-◌, ◌<◌, ◌≤◌, ◌≡◌, refl, ap, ◌∙◌, true, false, Option, none, some, ◌∷◌, arith, Bytes, length,
  length-append, ltb, leb, ltb-false, Bool-cases, inl, inr,
}
use dht_spider.Std.Decimal.{decimal}
use dht_spider.Std.Order.{bytes_eq, bytes_eq_iff}
use dht_spider.Std.Map as Map
use dht_spider.Std.Map.{
  length-retain-le, bytes_Eq, IsMap, get-insert_self, get-retain, contains_key-get, length-insert,
  contains_key-insert, contains_key-retain, retain-IsMap, insert-IsMap, length-insert-le,
}
use dht_spider.BlackList.{BlackList, key, insert, contains, clear_expired}

-- The key of an address with a port is not the key of the address alone.
key_port-ne : (ip : Bytes) (p : ℕ) → bytes_eq ip (key ip (some p)) ≡ false
key_port-ne ip p = elim (Bool-cases (bytes_eq ip (key ip (some p)))) [
  | inl h ↦
      let e : ip ≡ key ip (some p) = (bytes_eq_iff ip (key ip (some p))).0 h in
      absurd (omega (arith, ap length e, length-append ip (b':' ∷ decimal p)))
  | inr h ↦ h
]

-- An address that is put on the list, where there is room and its IP is not blocked as a whole, is
-- blocked from then on for exactly the expiry time.
pub contains-insert :
    (b : BlackList) (now now' : ℕ) (ip : Bytes) (p : ℕ)
    → length b.map < b.max_size
    → Map.contains_key ip b.map ≡ false
    → contains (insert b now ip (some p)) now' ip (some p) ≡ ltb (now' - now) b.expiry
unfolding contains insert
contains-insert b now now' ip p room free =
    let full : leb b.max_size (length b.map) ≡ false = ground arith in
    let whole : Map.contains_key ip (Map.insert (key ip (some p)) now b.map) ≡ false =
      rw (contains_key-insert ip (key ip (some p)) now b.map, key_port-ne ip p, free) refl in
    rw (full, whole, get-insert_self (key ip (some p)) now b.map) refl

-- A table within its bound, with one entry for each key.
pub record IsBounded (b : BlackList) : Type 0 where
  pub bounded : length b.map ≤ b.max_size
  pub distinct : IsMap b.map

-- An insertion keeps the table within its bound, with one entry for each key.
pub insert-IsBounded :
    (b : BlackList) (now : ℕ) (ip : Bytes) (port : Option ℕ)
    → IsBounded b
    → IsBounded (insert b now ip port)
unfolding insert
insert-IsBounded b now ip port h = elim (Bool-cases (leb b.max_size (length b.map))) [
  | inl full ↦ rw (full, insert) h
  | inr room ↦
      rw (room, insert)
        (record {
          bounded = ground (arith, length-insert-le (key ip port) now b.map);
          distinct = insert-IsMap (key ip port) now b.map h.distinct;
        })
]

-- Dropping the expired entries changes no answer about an address whose IP is not blocked as a
-- whole.
contains-clear_expired :
    (b : BlackList) (now : ℕ) (ip : Bytes) (port : Option ℕ)
    → IsMap b.map
    → Map.contains_key ip b.map ≡ false
    → contains (clear_expired b now) now ip port ≡ contains b now ip port
unfolding contains clear_expired
contains-clear_expired b now ip port h free =
    let alive = λ (created : ℕ). ltb (now - created) b.expiry in
    rw (free, contains_key-retain alive ip b.map free, get-retain alive (key ip port) b.map h)
      (ground arith)

-- An IP that was blocked as a whole stays blocked after its expiry, as long as nobody clears the
-- expired entries, though clearing them at that moment frees it.
pub contains_whole_ip :
    (b : BlackList) (now created : ℕ) (ip : Bytes)
    → IsMap b.map
    → Map.get ip b.map ≡ some created
    → b.expiry ≤ now - created
    → (contains b now ip none ≡ true) × (contains (clear_expired b now) now ip none ≡ false)
unfolding contains clear_expired
contains_whole_ip b now created ip h found old =
    let alive = λ (created : ℕ). ltb (now - created) b.expiry in
    let expired : ltb (now - created) b.expiry ≡ false = ltb-false (now - created) b.expiry old in
    let gone : Map.get ip (Map.retain alive b.map) ≡ none =
      get-retain alive ip b.map h ∙ rw (found, expired) refl in
    let whole : Map.contains_key ip b.map ≡ true = contains_key-get ip b.map ∙ rw found refl in
    let cleared : Map.contains_key ip (Map.retain alive b.map) ≡ false =
      contains_key-get ip (Map.retain alive b.map) ∙ rw gone refl in
    (rw whole refl, rw (cleared, gone) refl)

pub clear_expired-IsBounded :
    (b : BlackList) (now : ℕ) → IsBounded b → IsBounded (clear_expired b now)
unfolding clear_expired
clear_expired-IsBounded b now h =
    let alive = λ (created : ℕ). ltb (now - created) b.expiry in
    let shorter = length-retain-le alive b.map in
    record {
      bounded = omega (arith, shorter, h.bounded);
      distinct = retain-IsMap alive b.map h.distinct;
    }

pub max_size-insert :
    (b : BlackList) (now : ℕ) (ip : Bytes) (port : Option ℕ)
    → (insert b now ip port).max_size ≡ b.max_size
unfolding insert
max_size-insert b now ip port = elim (Bool-cases (leb b.max_size (length b.map))) [
  | inl full ↦ rw full refl
  | inr room ↦ rw room refl
]

pub max_size-clear_expired : (b : BlackList) (now : ℕ) → (clear_expired b now).max_size ≡ b.max_size
unfolding clear_expired
max_size-clear_expired b now = refl
