-- ===== src/Bencode/Collect.antt =====
-- The values that the decoder's loops collect stay values: `push` and `insert` keep the invariant.
use dht_spider.Prelude.{◌≡◌, refl, Bytes, Ordering, ◌⊎◌, inl, inr}
use dht_spider.Std.Order.{bytes_cmp, bytes_cmp-gt, bytes_cmp_trans}
use dht_spider.Bencode.Value.{
  BVal, Items, nil, item, Entries, empty, entry, push, insert, AllAbove, IsKey, IsValue, AreValues,
  IsMap,
}

pub push-AreValues : (l : Items) (v : BVal) → AreValues l → IsValue v → AreValues (push l v)
unfolding push IsValue
push-AreValues nil v h k = (k, tt)
push-AreValues (item w l) v h k = (h.0, push-AreValues l v h.1 k)

AllAbove-trans :
    (j k : Bytes) (m : Entries) → bytes_cmp j k ≡ Ordering.lt → AllAbove k m → AllAbove j m
AllAbove-trans j k empty h a = tt
AllAbove-trans j k (entry l w m) h a = (bytes_cmp_trans j k l h a.0, AllAbove-trans j k m h a.1)

Ordering-cases : (o : Ordering) → (o ≡ Ordering.lt) ⊎ ((o ≡ Ordering.eq) ⊎ (o ≡ Ordering.gt))
Ordering-cases Ordering.lt = inl refl
Ordering-cases Ordering.eq = inr (inl refl)
Ordering-cases Ordering.gt = inr (inr refl)

AllAbove-insert :
    (j k : Bytes) (v : BVal) (m : Entries)
    → bytes_cmp j k ≡ Ordering.lt
    → AllAbove j m
    → AllAbove j (insert k v m)
unfolding insert
AllAbove-insert j k v empty h a = (h, tt)
AllAbove-insert j k v (entry l w m) h a = elim (Ordering-cases (bytes_cmp k l)) [
  | inl e ↦ rw (e, insert) (h, a)
  | inr (inl e) ↦ rw (e, insert) a
  | inr (inr e) ↦ rw (e, insert) (a.0, AllAbove-insert j k v m h a.1)
]

-- An insertion keeps a dictionary's keys UTF-8 and strictly ascending.
pub insert-IsMap :
    (k : Bytes) (v : BVal) (m : Entries) → IsMap m → IsKey k → IsValue v → IsMap (insert k v m)
unfolding insert IsValue
insert-IsMap k v empty h hk hv = (hk, hv, tt, tt)
insert-IsMap k v (entry l w m) h hk hv = elim (Ordering-cases (bytes_cmp k l)) [
  | inl e ↦ rw (e, insert) (hk, hv, (e, AllAbove-trans k l m e h.2), h)
  | inr (inl e) ↦ rw (e, insert) (h.0, hv, h.2, h.3)
  | inr (inr e) ↦
      rw (e, insert)
        (h.0, h.1, AllAbove-insert l k v m (bytes_cmp-gt k l e) h.2, insert-IsMap k v m h.3 hk hv)
]
