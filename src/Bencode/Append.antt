-- ===== src/Bencode/Append.antt =====
-- What the decoder's loops collect: lists and dictionaries put together from two parts.
use dht_spider.Prelude.{◌≡◌, refl, ap, Bytes, Ordering}
use dht_spider.Std.Order.{bytes_cmp, bytes_cmp-lt_flip}
use dht_spider.Bencode.Value.{BVal, Items, nil, item, Entries, empty, entry, push, insert, AllAbove}

unfoldable pub append_items : Items → Items → Items
append_items nil l = l
append_items (item v k) l = item v (append_items k l)

pub append_items-push :
    (k : Items) (v : BVal) (l : Items) → append_items (push k v) l ≡ append_items k (item v l)
unfolding append_items push
append_items-push nil v l = refl
append_items-push (item w k) v l = ap (item w) (append_items-push k v l)

pub append_items-nil : (k : Items) → append_items k nil ≡ k
unfolding append_items
append_items-nil nil = refl
append_items-nil (item w k) = ap (item w) (append_items-nil k)

unfoldable pub append_entries : Entries → Entries → Entries
append_entries empty l = l
append_entries (entry j w k) l = entry j w (append_entries k l)

pub append_entries-empty : (k : Entries) → append_entries k empty ≡ k
unfolding append_entries
append_entries-empty empty = refl
append_entries-empty (entry j w k) = ap (entry j w) (append_entries-empty k)

-- Every key of `m` is below `k`.
abbrev pub AllBelow : Entries → Bytes → Type 0
AllBelow empty k = Unit
AllBelow (entry j v m) k = (bytes_cmp j k ≡ Ordering.lt) × AllBelow m k

-- Every key of `m` is below every key of `l`.
abbrev pub Before : Entries → Entries → Type 0
Before m empty = Unit
Before m (entry k v l) = AllBelow m k × Before m l

pub Before-empty : (l : Entries) → Before empty l
Before-empty empty = tt
Before-empty (entry k v l) = (tt, Before-empty l)

-- A key above all others goes to the end.
pub insert-append :
    (m : Entries) (k : Bytes) (v : BVal) (l : Entries)
    → AllBelow m k
    → append_entries (insert k v m) l ≡ append_entries m (entry k v l)
unfolding insert append_entries
insert-append empty k v l h = refl
insert-append (entry j w m) k v l h =
    rw (bytes_cmp-lt_flip j k h.0, insert) (ap (entry j w) (insert-append m k v l h.1))

pub insert-AllBelow :
    (m : Entries) (k k' : Bytes) (v : BVal)
    → AllBelow m k
    → AllBelow m k'
    → bytes_cmp k k' ≡ Ordering.lt
    → AllBelow (insert k v m) k'
unfolding insert
insert-AllBelow empty k k' v h h' e = (e, tt)
insert-AllBelow (entry j w m) k k' v h h' e =
    rw (bytes_cmp-lt_flip j k h.0, insert) (h'.0, insert-AllBelow m k k' v h.1 h'.1 e)

pub insert-Before :
    (m : Entries) (k : Bytes) (v : BVal) (l : Entries)
    → AllBelow m k
    → Before m l
    → AllAbove k l
    → Before (insert k v m) l
insert-Before m k v empty h b a = tt
insert-Before m k v (entry k' w l) h b a =
    (insert-AllBelow m k k' v h b.0 a.0, insert-Before m k v l h b.1 a.1)
