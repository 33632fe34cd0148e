-- ===== src/Bencode/Atoms.antt =====
-- Strings and integers decode from their canonical form.
use dht_spider.Prelude.{
  drop-append, ℕ, suc, ◌+◌, ◌%◌, ◌^◌, ◌<◌, ◌≡◌, ◌≢◌, refl, ap, ◌∙◌, true, false, some, [], ◌∷◌,
  ◌++◌, append_assoc, arith, Bytes, All, All-weaken, length, length-append, get_elem?, drop, ltb,
  ltb-false,
}
use dht_spider.Std.Decimal.{
  ℤ, pos, negsuc, IsI64, IsDigit, is_digit, decimal, decimal_i64, decimal_first, All-decimal,
  parse_usize, parse_usize-decimal, parse_i64-decimal,
}
use dht_spider.Std.Utf8.{from_utf8, valid_from, lead, sound}
use dht_spider.Bencode.Value.{int, ok}
use dht_spider.Bencode.Decode.{slice, string_at, decode_string, decode_int}
use dht_spider.Bencode.Cursor.{get_elem?-drop, drop-suc, length-at, slice-append, find-append}
use dht_spider.Bencode.Text.{text_bytes, text}

-- ASCII is UTF-8.
lead-ascii : (c : ℕ) (cs : Bytes) → c < 128 → lead c cs ≡ sound 0
unfolding lead
lead-ascii c cs h = ground arith

valid_from-ascii : (s : Bytes) → All (λ c. c < 128) s → valid_from 0 s ≡ true
unfolding valid_from
valid_from-ascii [] h = refl
valid_from-ascii (c ∷ cs) h = rw (lead-ascii c cs h.0, valid_from) (valid_from-ascii cs h.1)

from_utf8-ascii : (s : Bytes) → All (λ c. c < 128) s → from_utf8 s ≡ some s
unfolding from_utf8
from_utf8-ascii s h = rw (valid_from-ascii s h)

string_at-text :
    (s : Bytes) (k j : ℕ) (d rest : Bytes)
    → length d < 2 ^ 64
    → drop k d ≡ b':' ∷ (s ++ rest)
    → k + 1 + length s ≡ j
    → string_at d k (length s) ≡ ok (s, j)
unfolding string_at
string_at-text s k j d rest hd h e =
    let total = length-at k d b':' (s ++ rest) h in
    let tail = length-append s rest in
    let end : (k + 1 + length s) % 2 ^ 64 ≡ j = omega arith in
    let fits : ltb (length d) j ≡ false = ltb-false (length d) j (omega arith) in
    let grows : ltb j (k + 1) ≡ false = ltb-false j (k + 1) (omega arith) in
    rw
      (
        end,
        fits,
        grows,
        slice-append (k + 1) j d s rest (drop-suc k d b':' (s ++ rest) h) (omega arith),
      )
      refl

pub decode_string-text :
    (s : Bytes) (i j : ℕ) (d rest : Bytes)
    → length s < 2 ^ 64
    → length d < 2 ^ 64
    → drop i d ≡ text_bytes s ++ rest
    → i + length (text_bytes s) ≡ j
    → decode_string d i ≡ ok (s, j)
unfolding decode_string
decode_string-text s i j d rest hs hd h e =
    let n = decimal (length s) in
    let (c, cs, first, digit) = decimal_first (length s) in
    let h' : drop i d ≡ n ++ b':' ∷ (s ++ rest) = h ∙ append_assoc n (b':' ∷ s) rest in
    let at : get_elem? d i ≡ some c =
      get_elem?-drop i d c (cs ++ b':' ∷ (s ++ rest))
        (h' ∙ ap (λ l. l ++ b':' ∷ (s ++ rest)) first) in
    let is : is_digit c ≡ true = ground arith in
    let found =
      find-append i b':' d n (s ++ rest) h'
        (All-weaken IsDigit (λ x. x ≢ b':') n (λ x k. omega arith) (All-decimal (length s))) in
    let len : slice d i (length n + i) ≡ n =
      slice-append i (length n + i) d n (b':' ∷ (s ++ rest)) h' (omega arith) in
    let read : parse_usize n ≡ some (length s) = parse_usize-decimal (length s) hs in
    let ascii : from_utf8 n ≡ some n =
      from_utf8-ascii n
        (All-weaken IsDigit (λ x. x < 128) n (λ x k. omega arith) (All-decimal (length s))) in
    let sum = length-append n (b':' ∷ s) in
    rw (at, decode_string, is, found, len, ascii, read)
      (string_at-text s (length n + i) j d rest hd
        (let e' : length n + i ≡ i + length n = omega arith in
          rw e' (drop-append i d n (b':' ∷ (s ++ rest)) h'))
        (omega arith))

All-decimal_i64 : (n : ℤ) → All (λ c. (c < 128) × (c ≢ b'e')) (decimal_i64 n)
unfolding decimal_i64
All-decimal_i64 (pos n) =
    All-weaken IsDigit _ (decimal n) (λ x k. (omega arith, omega arith)) (All-decimal n)
All-decimal_i64 (negsuc n) = (
  (omega arith, omega arith),
  All-weaken IsDigit _ (decimal (suc n)) (λ x k. (omega arith, omega arith)) (All-decimal (suc n)),
)

pub decode_int-text :
    (n : ℤ) (i j : ℕ) (d rest : Bytes)
    → IsI64 n
    → drop i d ≡ text (int n) ++ rest
    → i + length (text (int n)) ≡ j
    → decode_int d i ≡ ok (n, j)
unfolding decode_int text
decode_int-text n i j d rest hn h e =
    let s = decimal_i64 n in
    let h' : drop i d ≡ b'i' ∷ (s ++ b'e' ∷ rest) =
      h ∙ ap (◌∷◌ b'i') (append_assoc s (b'e' ∷ []) rest) in
    let at : get_elem? d i ≡ some b'i' = get_elem?-drop i d b'i' (s ++ b'e' ∷ rest) h' in
    let h2 : drop (i + 1) d ≡ s ++ b'e' ∷ rest = drop-suc i d b'i' (s ++ b'e' ∷ rest) h' in
    let found = find-append (i + 1) b'e' d s rest h2 (
      All-weaken (λ c. (c < 128) × (c ≢ b'e')) (λ c. c ≢ b'e') s (λ x k. k.1)
        (All-decimal_i64 n)) in
    let ascii : from_utf8 s ≡ some s = from_utf8-ascii s (
      All-weaken (λ c. (c < 128) × (c ≢ b'e')) (λ c. c < 128) s (λ x k. k.0) (All-decimal_i64 n)) in
    let part : slice d (i + 1) (length s + (i + 1)) ≡ s =
      slice-append (i + 1) (length s + (i + 1)) d s (b'e' ∷ rest) h2 (omega arith) in
    let sum = length-append s (b'e' ∷ []) in
    let end : length s + (i + 1) + 1 ≡ j = omega arith in
    rw (at, decode_int, found, part, ascii, parse_i64-decimal n hn, end) refl
