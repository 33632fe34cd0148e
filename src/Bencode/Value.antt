-- ===== src/Bencode/Value.antt =====
-- `BVal`, `BError` and the dictionary, a `BTreeMap<String, BVal>` as a list in ascending key order.
use dht_spider.Prelude.{
  ◌≡◌, String, List, [], ◌∷◌, Option, none, some, Ordering, Bytes, ◌<◌, ◌^◌, length,
}
use dht_spider.Std.Order.{bytes_cmp}
use dht_spider.Std.Decimal.{ℤ, IsI64}
use dht_spider.Std.Utf8.{is_utf8}
use dht_spider.Prelude.{true}

mutual
  pub data BVal : Type 0 where
    bytes : Bytes → BVal
    int : ℤ → BVal
    list : Items → BVal
    dict : Entries → BVal

  -- `Vec<BVal>`
  pub data Items : Type 0 where
    nil : Items
    item : BVal → Items → Items

  -- `BTreeMap<String, BVal>`, a key by its UTF-8 bytes
  pub data Entries : Type 0 where
    empty : Entries
    entry : Bytes → BVal → Entries → Entries

pub data BError : Type 0 where
  invalid : String → BError
  out_of_range : BError
  parse_int : BError

-- `out_of_fuel` has no counterpart in the program.
pub data Result {ℓ} (A : Type ℓ) : Type ℓ where
  ok : A → Result A
  err : BError → Result A
  out_of_fuel : Result A

infixl 5 ◌>>=◌
abbrev pub ◌>>=◌ {ℓ κ} : {A : Type ℓ} {B : Type κ} → Result A → (A → Result B) → Result B
ok a >>= f = f a
err e >>= f = err e
out_of_fuel >>= f = out_of_fuel

abbrev pub ok_or {ℓ} : {A : Type ℓ} → BError → Option A → Result A
ok_or e none = err e
ok_or e (some a) = ok a

-- `Vec::push`
unfoldable pub push : Items → BVal → Items
push nil v = item v nil
push (item w vs) v = item w (push vs v)

-- `BTreeMap::insert`: a key that is there keeps its place and gets the new value.
unfoldable pub insert : Bytes → BVal → Entries → Entries
insert k v empty = entry k v empty
insert k v (entry j w m) = elim (bytes_cmp k j) [
  | Ordering.lt ↦ entry k v (entry j w m)
  | Ordering.eq ↦ entry j v m
  | Ordering.gt ↦ entry j w (insert k v m)
]

-- `BTreeMap::get`
unfoldable pub get : Bytes → Entries → Option BVal
get k empty = none
get k (entry j w m) = elim (bytes_cmp k j) [ Ordering.eq ↦ some w | _ ↦ get k m ]

-- The helper `dict(pairs)`.
unfoldable pub insert_all : List (Bytes × BVal) → Entries → Entries
unfolding insert
insert_all [] m = m
insert_all ((k, v) ∷ pairs) m = insert_all pairs (insert k v m)

unfoldable pub dict_of : List (Bytes × BVal) → BVal
unfolding insert_all
dict_of pairs = dict (insert_all pairs empty)

-- Every key of the map is above the given one.
abbrev pub AllAbove : Bytes → Entries → Type 0
AllAbove k empty = Unit
AllAbove k (entry j v m) = (bytes_cmp k j ≡ Ordering.lt) × AllAbove k m

abbrev pub IsKey : Bytes → Type 0
IsKey k = (is_utf8 k ≡ true) × (length k < 2 ^ 64)

-- What a value of these types always is: numbers in the range of `i64`, strings that fit into
-- memory, dictionary keys that are UTF-8 and strictly ascending.
unfoldable mutual
  pub IsValue : BVal → Type 0
  IsValue (bytes b) = length b < 2 ^ 64
  IsValue (int n) = IsI64 n
  IsValue (list vs) = AreValues vs
  IsValue (dict m) = IsMap m

  pub AreValues : Items → Type 0
  AreValues nil = Unit
  AreValues (item v vs) = IsValue v × AreValues vs

  pub IsMap : Entries → Type 0
  IsMap empty = Unit
  IsMap (entry k v m) = IsKey k × IsValue v × AllAbove k m × IsMap m
