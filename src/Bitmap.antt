-- ===== src/Bitmap.antt =====
-- src/bitmap.rs: a string of bits in bytes, the first bit of a byte the highest. `none` stands for
-- a failed assertion or an index out of range, on which the program panics.
pub mod Bits
pub mod Laws
pub mod Distance
mod Tests
use dht_spider.Prelude.{
  ℕ, zero, suc, ◌+◌, ◌-◌, ◌*◌, ◌/◌, ◌%◌, ◌^◌, bit_and, bit_or, bit_xor, Bool, true, false, not,
  ◌&&◌, Option, none, some, List, [], ◌∷◌, ◌++◌, Bytes, length, get_elem?, take, drop, replicate,
  ltb, leb, ◌==◌, if◌then◌else◌, Ordering, compare,
}
use mathlib.Core.Option
use dht_spider.Prelude as Prelude
use dht_spider.Std.Bits.{masked}
use dht_spider.Std.Order.{bytes_cmp, bytes_eq}
use dht_spider.Std.Utf8.{from_utf8_lossy}

pub record Bitmap : Type 0 where
  pub size : ℕ
  pub bytes : Bytes

infixl 5 ◌>>=◌
abbrev pub ◌>>=◌ {ℓ κ} : {A : Type ℓ} {B : Type κ} → Option A → (A → Option B) → Option B
none >>= f = none
some a >>= f = f a

unfoldable pub new : ℕ → Bitmap
new size_bits = record { size = size_bits; bytes = replicate ((size_bits + 7) / 8) 0 }

unfoldable pub from_bytes : Bytes → Bitmap
from_bytes input = record { size = length input * 8; bytes = input }

-- `(byte & (1u8 << (7-m))) >> (7-m)`, for `m` the index modulo 8
abbrev pub bit_in : ℕ → ℕ → ℕ
bit_in byte index = masked byte (7 - index % 8)

unfoldable pub bit : Bitmap → ℕ → Option ℕ
bit b index =
    if ltb index b.size
    then Option.map (λ byte. bit_in byte index) (get_elem? b.bytes (index / 8))
    else none

abbrev with_byte : Bitmap → ℕ → (ℕ → ℕ) → Option Bitmap
with_byte b div f =
    Option.map (λ byte. record b { bytes = Prelude.set b.bytes div (f byte) })
      (get_elem? b.bytes div)

unfoldable pub set : Bitmap → ℕ → Option Bitmap
set b index =
    if ltb index b.size
    then with_byte b (index / 8) (λ byte. bit_or byte (2 ^ (7 - index % 8)))
    else none

-- `!sh` of a byte is `255 - sh`.
unfoldable pub unset : Bitmap → ℕ → Option Bitmap
unset b index =
    if ltb index b.size
    then with_byte b (index / 8) (λ byte. bit_and byte (255 - 2 ^ (7 - index % 8)))
    else none

-- `&xs[..div]`
abbrev pub upto : ℕ → Bytes → Option Bytes
upto div xs = if leb div (length xs) then some (take div xs) else none

-- The loop of `compare_prefix` over the bits that fill no byte.
unfoldable pub compare_bits : ℕ → ℕ → Bitmap → Bitmap → Option Ordering
compare_bits zero i b other = some Ordering.eq
compare_bits (suc rounds) i b other =
    let rest = compare_bits rounds (i + 1) b other in
    bit b i >>= λ b1. bit other i >>= λ b2. elim (compare b1 b2) [
      | Ordering.lt ↦ some Ordering.lt
      | Ordering.eq ↦ rest
      | Ordering.gt ↦ some Ordering.gt
    ]

-- The result `-1`, `0`, `1` of the program is an ordering here.
unfoldable pub compare_prefix : Bitmap → Bitmap → ℕ → Option Ordering
unfolding compare_bits bytes_cmp
compare_prefix b other prefix_len =
    let div = prefix_len / 8 in
    let tail = compare_bits (prefix_len % 8) (div * 8) b other in
    if leb prefix_len b.size && leb prefix_len other.size
    then (upto div b.bytes >>= λ mine. upto div other.bytes >>= λ theirs.
        elim (bytes_cmp mine theirs) [
          | Ordering.lt ↦ some Ordering.lt
          | Ordering.eq ↦ tail
          | Ordering.gt ↦ some Ordering.gt
        ])
    else none

unfoldable pub xor_bytes : Bytes → Bytes → Option Bytes
xor_bytes [] ys = some []
xor_bytes (x ∷ xs) [] = none
xor_bytes (x ∷ xs) (y ∷ ys) = Option.map (◌∷◌ (bit_xor x y)) (xor_bytes xs ys)

unfoldable pub xor : Bitmap → Bitmap → Option Bitmap
unfolding xor_bytes
xor b other =
    if b.size == other.size
    then Option.map (λ bytes. record { size = b.size; bytes = bytes })
        (xor_bytes b.bytes other.bytes)
    else none

unfoldable pub raw_string : Bitmap → Bytes
raw_string b = from_utf8_lossy b.bytes

-- `Vec::resize`, which only ever grows here
abbrev pub grown : ℕ → Bytes → Bytes
grown wanted bytes = bytes ++ replicate (wanted - length bytes) 0

unfoldable pub extend_one : Bitmap → ℕ → Option Bitmap
unfolding set
extend_one b value =
    let out : Bitmap = record { size = b.size + 1; bytes = grown ((b.size + 1 + 7) / 8) b.bytes } in
    if value == 1 then set out b.size else some out

-- The loop of `matches_id_prefix` over the bits that fill no byte.
unfoldable pub match_bits : ℕ → ℕ → Bitmap → Bytes → Option Bool
unfolding bit
match_bits zero i b id = some true
match_bits (suc rounds) i b id =
    let rest = match_bits rounds (i + 1) b id in
    Option.map (λ byte. bit_in byte i) (get_elem? id (i / 8)) >>= λ theirs.
    bit b i >>= λ mine. if mine == theirs then rest else some false

unfoldable pub matches_id_prefix : Bitmap → Bytes → Option Bool
unfolding match_bits bytes_eq
matches_id_prefix b id =
    let div = b.size / 8 in
    let tail = match_bits (b.size % 8) (div * 8) b id in
    upto div b.bytes >>= λ mine.
    upto div id >>= λ theirs. if bytes_eq mine theirs then tail else some false
