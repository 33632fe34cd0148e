-- ===== src/Storage/Order.antt =====
-- Rows of different times have one order, the newest first.
use mathlib.Core.Logic.{∥∥₁_elim}
use mathlib.Core.List.{Perm, Mem, mem-cons_self}
use mathlib.Core.List.Perm
use mathlib.Core.List.{Memᴰ}
use mathlib.Core.List.Memᴰ.{head, tail}
use dht_spider.Prelude.{
  ℕ, ◌≡◌, ◌≢◌, refl, sym, subst, ap, true, false, Option, some, List, [], ◌∷◌, All, take, drop, map,
  inl, inr, arith,
}
use dht_spider.Std.Decimal.{ℤ, pos, negsuc}
use dht_spider.Std.Sort.{IsSorted, sort_by, sort_by-Perm, sort_by-IsSorted}
use dht_spider.Storage.{TorrentEntry}
use dht_spider.Storage.Engine.{at_most, no_older, Shows}

at_most_total : (a b : ℤ) → at_most a b ≡ false → at_most b a ≡ true
at_most_total (pos a) (pos b) h = ground arith
at_most_total (pos a) (negsuc b) h = refl
at_most_total (negsuc a) (pos b) h = cc
at_most_total (negsuc a) (negsuc b) h = ground arith

at_most_trans : (a b c : ℤ) → at_most a b ≡ true → at_most b c ≡ true → at_most a c ≡ true
at_most_trans (pos a) (pos b) (pos c) h k = ground arith
at_most_trans (pos a) (pos b) (negsuc c) h k = cc
at_most_trans (pos a) (negsuc b) c h k = cc
at_most_trans (negsuc a) b (pos c) h k = refl
at_most_trans (negsuc a) (pos b) (negsuc c) h k = cc
at_most_trans (negsuc a) (negsuc b) (negsuc c) h k = ground arith

All-units : (es : List TorrentEntry) → All (λ e. Unit {0}) es
All-units [] = tt
All-units (e ∷ es) = (tt, All-units es)

pub sort_by-no_older : (es : List TorrentEntry) → IsSorted no_older (sort_by no_older es)
sort_by-no_older es =
    sort_by-IsSorted no_older (λ e. Unit {0})
      (λ a b h k e. at_most_total b.created_at a.created_at e)
      (λ a b c h k l e e'. at_most_trans c.created_at b.created_at a.created_at e' e) es
      (All-units es)

-- No two rows have one time.
abbrev pub HasDistinctTimes : List TorrentEntry → Type 0
HasDistinctTimes [] = Unit
HasDistinctTimes (e ∷ es) =
    All (λ (other : TorrentEntry). e.created_at ≢ other.created_at) es × HasDistinctTimes es

rows_set : IsSet (List TorrentEntry)
rows_set = hlevel

at_most_antisym : (a b : ℤ) → at_most a b ≡ true → at_most b a ≡ true → a ≡ b
at_most_antisym (pos a) (pos b) h k = ap pos (ground arith)
at_most_antisym (pos a) (negsuc b) h k = cc
at_most_antisym (negsuc a) (pos b) h k = cc
at_most_antisym (negsuc a) (negsuc b) h k = ap negsuc (ground arith)

All-Memᴰ {ℓ κ} : {A : Type ℓ} (P : A → Type κ) (x : A) (xs : List A) → All P xs → Memᴰ x xs → P x
All-Memᴰ P x [] h m = elim m [ ]
All-Memᴰ P x (y ∷ xs) h (head e) = subst P (sym e) h.0
All-Memᴰ P x (y ∷ xs) h (tail m) = All-Memᴰ P x xs h.1 m

no_older-Mem :
    (a b : TorrentEntry) (es : List TorrentEntry)
    → All (λ e. no_older a e ≡ true) es
    → Mem b es
    → no_older a b ≡ true
no_older-Mem a b es h m = ∥∥₁_elim m (hlevel) (λ d. All-Memᴰ (λ e. no_older a e ≡ true) b es h d)

created_at-Mem :
    (a b : TorrentEntry) (es : List TorrentEntry)
    → All (λ (e : TorrentEntry). a.created_at ≢ e.created_at) es
    → Mem b es
    → a.created_at ≢ b.created_at
created_at-Mem a b es h m =
    ∥∥₁_elim m (hlevel) (λ d. All-Memᴰ (λ (e : TorrentEntry). a.created_at ≢ e.created_at) b es h d)

Perm-unique :
    (xs ys : List TorrentEntry)
    → Perm xs ys
    → IsSorted no_older xs
    → IsSorted no_older ys
    → HasDistinctTimes ys
    → xs ≡ ys
Perm-unique [] [] p sx sy d = refl
Perm-unique [] (b ∷ ys) p sx sy d = Perm.nil-eq p
Perm-unique (a ∷ xs) [] p sx sy d = Perm.eq-nil p
Perm-unique (a ∷ xs) (b ∷ ys) p sx sy d = ∥∥₁_elim (Perm.cons-cons_cases p) (rows_set _ _) λ c.
    elim c [
      | inl (e, q) ↦ let rest = Perm-unique xs ys q sx.1 sy.1 d.1 in rw (e, rest) refl
      | inr (cs, q, r) ↦
          let after_a = no_older-Mem a b xs sx.0 ((Perm.mem_iff q).1 mem-cons_self) in
          let mem = (Perm.mem_iff r).1 mem-cons_self in
          let after_b = no_older-Mem b a ys sy.0 mem in
          absurd (
            created_at-Mem b a ys d.0 mem
              (at_most_antisym b.created_at a.created_at after_a after_b))
    ]

-- What a statement shows of rows with different times is a part of the rows by their times.
pub Shows-sort_by :
    (n off : ℕ) (es : List TorrentEntry) (r : Option (List (Option TorrentEntry)))
    → HasDistinctTimes (sort_by no_older es)
    → Shows n off es r
    → r ≡ some (map some (take n (drop off (sort_by no_older es))))
Shows-sort_by n off es r d (ordered, same, sorted, e) =
    let one : ordered ≡ sort_by no_older es =
      Perm-unique ordered (sort_by no_older es)
        (Perm.trans same (Perm.symm (sort_by-Perm no_older es))) sorted (sort_by-no_older es) d in
    rw (e, one) refl
