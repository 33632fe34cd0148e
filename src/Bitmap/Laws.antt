-- ===== src/Bitmap/Laws.antt =====
-- What each operation does to the bits of a bitmap.
use dht_spider.Prelude as Prelude
use dht_spider.Prelude.{
  ℕ, zero, suc, ◌+◌, ◌-◌, ◌*◌, ◌/◌, ◌%◌, ◌^◌, ◌<◌, ◌≤◌, bit_and, bit_or, ◌≡◌, refl, sym, ap, ◌∙◌,
  Bool, true, false, Option, none, some, List, [], ◌∷◌, ◌++◌, arith, Bytes, All, All-append, length,
  length-append, length-set, get_elem?, get_or, replicate, ltb, lt→ltb, ◌==◌, ==_iff, if◌then◌else◌,
  Bool-cases, inl, inr,
}
use dht_spider.Std.Bits.{bit_or-lt, masked-zero}
use dht_spider.Bitmap.{Bitmap, new, bit, set, unset, extend_one, grown}
use dht_spider.Bitmap.Bits.{
  IsByte, raw, get_elem?-get_or, get_or-IsByte, set-IsByte, raw-set_bit, raw-unset_bit, raw-zeros,
  replicate-IsByte, length-replicate,
}

-- As many bytes as the bits need, and zeros after the last bit.
pub record IsBitmap (b : Bitmap) : Type 0 where
  pub byte_length : length b.bytes ≡ (b.size + 7) / 8
  pub are_bytes : All IsByte b.bytes
  pub padding : (i : ℕ) → b.size ≤ i → raw b.bytes i ≡ 0

-- The bitmap `b'` is well formed, and is `b` with `value` as its bit `index`.
pub record Changes (b b' : Bitmap) (index value : ℕ) : Type 0 where
  pub well_formed : IsBitmap b'
  pub same_size : b'.size ≡ b.size
  pub bits : (j : ℕ) → raw b'.bytes j ≡ (if index == j then value else raw b.bytes j)

byte_room : (b : Bitmap) (i : ℕ) → IsBitmap b → i < b.size → i / 8 < length b.bytes
byte_room b i h k = omega (arith, h.byte_length)

pub bit-raw : (b : Bitmap) (i : ℕ) → IsBitmap b → i < b.size → bit b i ≡ some (raw b.bytes i)
unfolding bit raw
bit-raw b i h k =
    let inside : ltb i b.size ≡ true = lt→ltb i b.size k in
    rw (inside, get_elem?-get_or b.bytes (i / 8) (byte_room b i h k)) refl

-- One byte that changes its bit `i` only makes a change of the bitmap.
changes :
    (b : Bitmap) (i value v : ℕ)
    → IsBitmap b
    → i < b.size
    → IsByte v
    → ((j : ℕ) → raw (Prelude.set b.bytes (i / 8) v) j ≡ (if i == j then value else raw b.bytes j))
    → Changes b (record b { bytes = Prelude.set b.bytes (i / 8) v }) i value
changes b i value v h k byte new_bits = record {
  well_formed = record {
    byte_length = length-set b.bytes (i / 8) v ∙ h.byte_length;
    are_bytes = set-IsByte b.bytes (i / 8) v h.are_bytes byte;
    padding = λ j out.
        let other : (i == j) ≡ false = ground arith in new_bits j ∙ (rw other (h.padding j out));
  };
  same_size = refl;
  bits = new_bits;
}

-- `set` makes one bit 1, and `unset` makes it 0: no other bit changes, and neither panics.
bit-set :
    (b : Bitmap) (i : ℕ)
    → IsBitmap b
    → i < b.size
    → ((b' : Bitmap) × (set b i ≡ some b') × Changes b b' i 1)
      × ((b' : Bitmap) × (unset b i ≡ some b') × Changes b b' i 0)
unfolding set unset
bit-set b i h k =
    let byte = get_or b.bytes (i / 8) 0 in
    let inside : ltb i b.size ≡ true = lt→ltb i b.size k in
    let here = get_elem?-get_or b.bytes (i / 8) (byte_room b i h k) in
    let small =
      bit_or-lt byte (7 - i % 8) (get_or-IsByte b.bytes (i / 8) h.are_bytes) (omega arith) in
    (
      (
        _,
        rw (inside, here) refl,
        changes b i 1 (bit_or byte (2 ^ (7 - i % 8))) h k small.0
            (λ j. raw-set_bit b.bytes i j h.are_bytes (byte_room b i h k)),
      ),
      (
        _,
        rw (inside, here) refl,
        changes b i 0 (bit_and byte (255 - 2 ^ (7 - i % 8))) h k small.1
            (λ j. raw-unset_bit b.bytes i j h.are_bytes (byte_room b i h k)),
      ),
    )

-- A new bitmap is all zeros, for any size.
pub new-IsBitmap : (size_bits : ℕ) → IsBitmap (new size_bits)
unfolding new raw
new-IsBitmap size_bits =
    let n = (size_bits + 7) / 8 in
    record {
      byte_length = length-replicate n;
      are_bytes = replicate-IsByte n;
      padding = λ i out. raw-zeros [] n i ∙ masked-zero (7 - i % 8) (omega arith);
    }

wider : Bitmap → Bitmap
wider b = record { size = b.size + 1; bytes = grown ((b.size + 1 + 7) / 8) b.bytes }

wider-IsBitmap : (b : Bitmap) → IsBitmap b → IsBitmap (wider b)
unfolding wider
wider-IsBitmap b h =
    let n = (b.size + 1 + 7) / 8 - length b.bytes in
    record {
      byte_length =
          omega (arith, length-append b.bytes (replicate n 0), length-replicate n, h.byte_length);
      are_bytes = All-append IsByte b.bytes (replicate n 0) h.are_bytes (replicate-IsByte n);
      padding = λ i out. raw-zeros b.bytes n i ∙ h.padding i (omega arith);
    }

-- One more bit at the end, with the value that was asked for; the bits before it stay.
pub bit-extend_one :
    (b : Bitmap) (value : ℕ)
    → IsBitmap b
    → value < 2
    → (b' : Bitmap) × (extend_one b value ≡ some b')
      × IsBitmap b'
      × (b'.size ≡ b.size + 1)
      × ((j : ℕ) → raw b'.bytes j ≡ (if b.size == j then value else raw b.bytes j))
unfolding extend_one wider
bit-extend_one b value h k =
    let n = (b.size + 1 + 7) / 8 - length b.bytes in
    elim (Bool-cases (value == 1)) [
      | inl one ↦
          let (b', e, c) = (bit-set (wider b) b.size (wider-IsBitmap b h) (omega arith)).0 in
          let is_one : value ≡ 1 = (==_iff _ _).0 one in
          (
            b',
            rw one e,
            c.well_formed,
            c.same_size,
            λ j. c.bits j ∙ (rw (is_one, raw-zeros b.bytes n j) refl),
          )
      | inr other ↦
          let is_zero : value ≡ 0 = ground arith in
          (
            wider b,
            rw other refl,
            wider-IsBitmap b h,
            refl,
            λ j. raw-zeros b.bytes n j ∙ zero_at_end j is_zero,
          )
    ]
  where
    zero_at_end :
        (j : ℕ) → value ≡ 0 → raw b.bytes j ≡ (if b.size == j then value else raw b.bytes j)
    zero_at_end j e = elim (Bool-cases (b.size == j)) [
      | inl here ↦
          let same : b.size ≡ j = (==_iff _ _).0 here in
          rw (here, e) (h.padding j (omega (arith, same)))
      | inr away ↦ rw away refl
    ]
