-- ===== src/Transaction/Keyed.antt =====
-- The table of src/transaction.rs keeps each transaction once, under its own id.
use dht_spider.Prelude.{
  ℕ, ◌≡◌, refl, sym, ◌∙◌, true, none, some, List, [], ◌∷◌, All, All-weaken, length, arith, Bytes,
  leb, Bool-cases, Option-cases, inl, inr,
}
use dht_spider.Std.Order.{bytes_eq, bytes_eq_iff}
use dht_spider.Std.Map as Map
use dht_spider.Std.Map.{bytes_Eq, IsMap, get-absent, insert-IsMap, remove-IsMap, bytes_eq_refl}
use dht_spider.Transaction.{
  Transaction, TransactionManager, is_due, scan, insert, finish_by_trans_id, mark_retry, retried,
  max_transactions,
}

abbrev pub IsKeyed : List (Bytes × Transaction) → Type 0
IsKeyed [] = Unit
IsKeyed ((tid, t) ∷ m) = (t.trans_id_bytes ≡ tid) × IsKeyed m

pub record IsTable (m : List (Bytes × Transaction)) : Type 0 where
  pub keys : IsMap m
  pub keyed : IsKeyed m

put-IsKeyed :
    (tid : Bytes) (t : Transaction) (m : List (Bytes × Transaction))
    → t.trans_id_bytes ≡ tid
    → IsKeyed m
    → IsKeyed (Map.insert tid t m)
unfolding Map.insert
put-IsKeyed tid t [] e h = (e, tt)
put-IsKeyed tid t ((k, u) ∷ m) e h = elim (Bool-cases (bytes_eq tid k)) [
  | inl same ↦ rw (same, Map.insert) (e, h.1)
  | inr other ↦ rw (other, Map.insert) (h.0, put-IsKeyed tid t m e h.1)
]

remove-IsKeyed :
    (tid : Bytes) (m : List (Bytes × Transaction)) → IsKeyed m → IsKeyed (Map.remove tid m)
unfolding Map.remove
remove-IsKeyed tid [] h = tt
remove-IsKeyed tid ((k, u) ∷ m) h = elim (Bool-cases (bytes_eq tid k)) [
  | inl same ↦ rw (same, Map.remove) (remove-IsKeyed tid m h.1)
  | inr other ↦ rw (other, Map.remove) (h.0, remove-IsKeyed tid m h.1)
]

get-keyed :
    (tid : Bytes) (t : Transaction) (m : List (Bytes × Transaction))
    → IsKeyed m
    → Map.get tid m ≡ some t
    → t.trans_id_bytes ≡ tid
unfolding Map.get
get-keyed tid t [] h e = absurd (ground (arith, e))
get-keyed tid t ((k, u) ∷ m) h e = elim (Bool-cases (bytes_eq tid k)) [
  | inl same ↦
      let found : u ≡ t = ground (arith, e, same) in
      let here = (bytes_eq_iff tid k).0 same in cc (found, h.0, here)
  | inr other ↦ get-keyed tid t m h.1 (rw other at e)
]

-- Insertions, ends and retries keep it so.
pub insert-IsTable :
    (m : TransactionManager) (t : Transaction) → IsTable m.map → IsTable (insert m t).1.map
unfolding insert
insert-IsTable m t h = elim (Bool-cases (leb max_transactions (length m.map))) [
  | inl full ↦ rw full h
  | inr room ↦ rw room (record {
    keys = insert-IsMap t.trans_id_bytes t m.map h.keys;
    keyed = put-IsKeyed t.trans_id_bytes t m.map refl h.keyed;
  })
]

pub finish_by_trans_id-IsTable :
    (m : TransactionManager) (tid : Bytes)
    → IsTable m.map
    → IsTable (finish_by_trans_id m tid).1.map
unfolding finish_by_trans_id
finish_by_trans_id-IsTable m tid h = record {
  keys = remove-IsMap tid m.map h.keys;
  keyed = remove-IsKeyed tid m.map h.keyed;
}

pub mark_retry-IsTable :
    (m : TransactionManager) (now : ℕ) (tid : Bytes)
    → IsTable m.map
    → IsTable (mark_retry m now tid).map
unfolding mark_retry
mark_retry-IsTable m now tid h = elim (Option-cases (Map.get tid m.map)) [
  | inl e ↦ rw (e, mark_retry) h
  | inr (t, e) ↦
      rw (e, mark_retry)
        (record {
          keys = insert-IsMap tid (retried now t) m.map h.keys;
          keyed = put-IsKeyed tid (retried now t) m.map (get-keyed tid t m.map h.keyed e) h.keyed;
        })
]

-- A transaction that a scan sends again is the one that the table has under its id.
pub scan-All :
    (now base_secs max_retries : ℕ) (tid : Bytes) (m : List (Bytes × Transaction))
    → IsTable m
    → All
        (λ (t : Transaction). t.trans_id_bytes ≡ tid → Map.get tid m ≡ some t)
        (scan now base_secs max_retries m).0
unfolding scan Map.get
scan-All now base_secs max_retries tid [] h = tt
scan-All now base_secs max_retries tid ((k, u) ∷ m) h =
    let rest =
      scan-All now base_secs max_retries tid m (record { keys = h.keys.1; keyed = h.keyed.1 }) in
    let tail =
      All-weaken _ (λ (t : Transaction). t.trans_id_bytes ≡ tid → Map.get tid ((k, u) ∷ m) ≡ some t)
        _ lift rest in
    elim (Bool-cases (is_due now base_secs u)) [
      | inl due ↦ elim (Bool-cases (leb max_retries u.retries)) [
        | inl used_up ↦ rw (due, used_up) tail
        | inr left ↦ rw (due, left) (here, tail)
      ]
      | inr early ↦ rw early tail
    ]
  where
    here : u.trans_id_bytes ≡ tid → Map.get tid ((k, u) ∷ m) ≡ some u
    here e =
        let same : bytes_eq tid k ≡ true = (bytes_eq_iff tid k).1 (sym e ∙ h.keyed.0) in
        rw same refl

    lift :
        (t : Transaction)
        → (t.trans_id_bytes ≡ tid → Map.get tid m ≡ some t)
        → t.trans_id_bytes ≡ tid
        → Map.get tid ((k, u) ∷ m) ≡ some t
    lift t f e = elim (Bool-cases (bytes_eq tid k)) [
      | inl same ↦
          let gone : Map.get tid m ≡ none =
            get-absent tid m (rw ((bytes_eq_iff tid k).0 same) h.keys.0) in
          absurd (ground (arith, gone, f e))
      | inr other ↦ rw other (f e)
    ]
