-- ===== src/Transaction/Table.antt =====
-- The two tables: what is found after an insertion and after a transaction has finished.
use dht_spider.Prelude.{
  ℕ, ◌+◌, ◌<◌, ◌≤◌, ◌≡◌, refl, sym, subst, ◌∙◌, Bool, true, false, Option, none, some, arith, Bytes,
  length, leb, if◌then◌else◌, Bool-cases, Option-cases, inl, inr,
}
use dht_spider.Std.Order.{bytes_eq, bytes_eq_iff}
use dht_spider.Std.Display.{addr_string}
use dht_spider.Std.Map as Map
use dht_spider.Std.Map.{
  bytes_Eq, IsMap, get-insert_self, get-insert_ne, get-remove_self, get-remove_ne, length-insert,
  length-insert-le, length-remove-le, remove-insert, contains_key-get,
}
use dht_spider.Transaction.{
  Transaction, TransactionManager, max_transactions, gen_index_key, insert, get_by_trans_id,
  get_by_index, finish_by_trans_id, mark_retry, len, retried,
}

abbrev inserted : TransactionManager → Transaction → TransactionManager
inserted m t = record m {
  map = Map.insert t.trans_id_bytes t m.map;
  index = Map.insert (gen_index_key t.qtype (addr_string t.addr)) t.trans_id_bytes m.index;
}

insert-room :
    (m : TransactionManager) (t : Transaction)
    → len m < max_transactions
    → insert m t ≡ (true, inserted m t)
unfolding insert
insert-room m t h = let e : leb max_transactions (length m.map) ≡ false = ground arith in rw e refl

-- While there is room, an insertion succeeds and its transaction is found by its id and by its kind
-- and address; in a full table it fails and changes nothing.
insert_lem :
    (m : TransactionManager) (t : Transaction)
    → (len m < max_transactions
        → ((insert m t).0 ≡ true)
          × (get_by_trans_id (insert m t).1 t.trans_id_bytes ≡ some t)
          × (get_by_index (insert m t).1 t.qtype (addr_string t.addr) ≡ some t))
      × (max_transactions ≤ len m → insert m t ≡ (false, m))
unfolding get_by_trans_id get_by_index insert
insert_lem m t = (room, full)
  where
    found_inserted : Map.get t.trans_id_bytes (Map.insert t.trans_id_bytes t m.map) ≡ some t
    found_inserted = get-insert_self t.trans_id_bytes t m.map

    index_inserted : get_by_index (inserted m t) t.qtype (addr_string t.addr) ≡ some t
    index_inserted =
        rw
          (
            get_by_index,
            get-insert_self (gen_index_key t.qtype (addr_string t.addr)) t.trans_id_bytes m.index,
          )
          found_inserted

    room :
        len m < max_transactions
        → ((insert m t).0 ≡ true)
          × (get_by_trans_id (insert m t).1 t.trans_id_bytes ≡ some t)
          × (get_by_index (insert m t).1 t.qtype (addr_string t.addr) ≡ some t)
    room h =
        subst
          (λ r.
            (r.0 ≡ true)
            × (get_by_trans_id r.1 t.trans_id_bytes ≡ some t)
            × (get_by_index r.1 t.qtype (addr_string t.addr) ≡ some t))
          (sym (insert-room m t h)) (refl, found_inserted, index_inserted)

    full : max_transactions ≤ len m → insert m t ≡ (false, m)
    full h = let e : leb max_transactions (length m.map) ≡ true = ground arith in rw e refl

abbrev pub points_to : Option Bytes → Bytes → Bool
points_to none tid = false
points_to (some key) tid = bytes_eq key tid

-- A finished transaction is found no more, by its id or by the index, and every other one is found
-- as before.
pub get-finish_by_trans_id :
    (m : TransactionManager) (tid other query_type address : Bytes)
    → (get_by_trans_id (finish_by_trans_id m tid).1 other
        ≡ (if bytes_eq other tid then none else get_by_trans_id m other))
      × (get_by_index (finish_by_trans_id m tid).1 query_type address ≡ (
          if points_to (Map.get (gen_index_key query_type address) m.index) tid
          then none
          else get_by_index m query_type address))
unfolding finish_by_trans_id get_by_trans_id get_by_index
get-finish_by_trans_id m tid other query_type address =
    (by_id other, by_index (Map.get (gen_index_key query_type address) m.index))
  where
    by_id :
        (other : Bytes)
        → Map.get other (Map.remove tid m.map)
          ≡ (if bytes_eq other tid then none else Map.get other m.map)
    by_id other = elim (Bool-cases (bytes_eq other tid)) [
      | inl e ↦ rw (e, (bytes_eq_iff other tid).0 e, get-remove_self tid m.map) refl
      | inr e ↦ rw (e, get-remove_ne tid other m.map e) refl
    ]

    by_index :
        (o : Option Bytes)
        → elim o [ none ↦ none | some key ↦ Map.get key (Map.remove tid m.map) ] ≡ (
            if points_to o tid then none else elim o [ none ↦ none | some key ↦ Map.get key m.map ])
    by_index none = refl
    by_index (some key) = by_id key

-- The table never holds more than its bound.
pub record IsBounded (m : TransactionManager) : Type 0 where
  pub bounded : len m ≤ max_transactions

pub insert-IsBounded :
    (m : TransactionManager) (t : Transaction) → IsBounded m → IsBounded (insert m t).1
unfolding insert
insert-IsBounded m t h = elim (Bool-cases (leb max_transactions (length m.map))) [
  | inl full ↦ rw full h
  | inr room ↦
      rw room (record { bounded = ground (arith, length-insert-le t.trans_id_bytes t m.map) })
]

pub mark_retry-IsBounded :
    (m : TransactionManager) (now : ℕ) (tid : Bytes)
    → IsBounded m
    → IsBounded (mark_retry m now tid)
unfolding mark_retry
mark_retry-IsBounded m now tid h = elim (Option-cases (Map.get tid m.map)) [
  | inl e ↦ rw (e, mark_retry) h
  | inr (t, e) ↦
      let here : Map.contains_key tid m.map ≡ true = contains_key-get tid m.map ∙ rw e refl in
      rw (e, mark_retry)
        (record {
          bounded =
              let grown = length-insert tid (retried now t) m.map in
              let same : length (Map.insert tid (retried now t) m.map) ≡ length m.map =
                rw here at grown in
              omega (arith, same, h.bounded);
        })
]

-- A query to an address that the index does not know, once finished, leaves the table as long as it
-- was and the index longer by one entry.
pub finish_by_trans_id-insert :
    (m : TransactionManager) (t : Transaction)
    → len m < max_transactions
    → Map.contains_key t.trans_id_bytes m.map ≡ false
    → Map.contains_key (gen_index_key t.qtype (addr_string t.addr)) m.index ≡ false
    → let m' = (finish_by_trans_id (insert m t).1 t.trans_id_bytes).1 in
      (m'.map ≡ m.map) × (length m'.index ≡ length m.index + 1)
unfolding insert finish_by_trans_id
finish_by_trans_id-insert m t room fresh unknown =
    let e : leb max_transactions (length m.map) ≡ false = ground arith in
    let idx = gen_index_key t.qtype (addr_string t.addr) in
    (
      rw (e, remove-insert t.trans_id_bytes t m.map fresh) refl,
      rw e (length-insert idx t.trans_id_bytes m.index ∙ rw unknown (omega arith)),
    )
