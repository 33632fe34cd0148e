-- ===== src/Wire/Pieces.antt =====
-- The pieces of the metadata as they come in order: where each goes, and what they make.
use dht_spider.Prelude as Prelude
use dht_spider.Prelude.{
  take_all, ℕ, zero, suc, ◌+◌, ◌-◌, ◌*◌, ◌/◌, ◌%◌, ◌^◌, ◌<◌, ◌≤◌, ◌≡◌, refl, sym, ap, ◌∙◌, subst,
  Bool, true, false, not, ◌&&◌, Option, none, some, List, [], ◌∷◌, ◌++◌, append_assoc, append-nil,
  map, Bytes, codes, length, length-append, replicate, take, drop, length-take, length-drop,
  drop-length-append, take-append-drop, ltb, ◌==◌, ==_iff, if◌then◌else◌, arith,
}
use dht_spider.Std.Order.{bytes_eq_iff}
use dht_spider.Wire.Download.{
  block, Download, finishes, quiet, is_last, bad_size, is_filled, all_filled, concat, complete,
  on_piece,
}

set-append :
    (front : List Bytes) (x : Bytes) (xs : List Bytes) (v : Bytes)
    → Prelude.set (front ++ x ∷ xs) (length front) v ≡ front ++ v ∷ xs
set-append [] x xs v = refl
set-append (y ∷ front) x xs v = ap (◌∷◌ y) (set-append front x xs v)

pub all_filled_last :
    (front : List Bytes) (chunk : Bytes)
    → all_filled front ≡ true
    → is_filled chunk ≡ true
    → all_filled (front ++ chunk ∷ []) ≡ true
unfolding all_filled
all_filled_last [] chunk h k = rw k refl
all_filled_last (x ∷ front) chunk h k = let ih = all_filled_last front chunk in ground arith

all_filled_missing :
    (front : List Bytes) (chunk : Bytes) (xs : List Bytes)
    → all_filled (front ++ chunk ∷ [] ∷ xs) ≡ false
unfolding all_filled
all_filled_missing [] chunk xs = ground arith
all_filled_missing (x ∷ front) chunk xs = let ih = all_filled_missing front chunk xs in ground arith

concat-append : (xs ys : List Bytes) → concat (xs ++ ys) ≡ concat xs ++ concat ys
unfolding concat
concat-append [] ys = refl
concat-append (x ∷ xs) ys = rw (concat-append xs ys) (sym (append_assoc x (concat xs) (concat ys)))

concat_one : (x : Bytes) → concat (x ∷ []) ≡ x
unfolding concat
concat_one x = append-nil x

pub filled : (x : Bytes) → 0 < length x → is_filled x ≡ true
filled [] h = absurd (omega arith)
filled (b ∷ x) h = refl

module _ (sha1 : Bytes → Bytes) (info_hash : Bytes) where
  -- The next piece that is missing is put in its place.
  pub on_piece-next :
      (d : Download) (front : List Bytes) (xs : List Bytes) (chunk : Bytes)
      → bad_size d (length front) (length chunk) ≡ false
      → on_piece sha1 info_hash d (front ++ [] ∷ xs) (length front) chunk
        ≡ complete sha1 info_hash d (front ++ chunk ∷ xs)
  unfolding on_piece
  on_piece-next d front xs chunk h =
      let inside : ltb (length front) (length (front ++ [] ∷ xs)) ≡ true =
        ground (arith, length-append front ([] ∷ xs)) in
      rw (h, inside, set-append front [] xs chunk) refl

  pub complete-last :
      (d : Download) (front : List Bytes) (chunk : Bytes)
      → all_filled front ≡ true
      → 0 < length chunk
      → sha1 (concat front ++ chunk) ≡ info_hash
      → complete sha1 info_hash d (front ++ chunk ∷ []) ≡ finishes (concat front ++ chunk)
  unfolding complete
  complete-last d front chunk h some_bytes good =
      let all : all_filled (front ++ chunk ∷ []) ≡ true =
        all_filled_last front chunk h (filled chunk some_bytes) in
      let joined : concat (front ++ chunk ∷ []) ≡ concat front ++ chunk =
        concat-append front (chunk ∷ []) ∙ ap (λ s. concat front ++ s) (concat_one chunk) in
      rw (all, joined, good, (bytes_eq_iff info_hash info_hash).1 refl) refl

  pub complete-more :
      (d : Download) (front : List Bytes) (chunk : Bytes) (n : ℕ)
      → complete sha1 info_hash d (front ++ chunk ∷ replicate (suc n) [])
        ≡ quiet (record d { pieces = some (front ++ chunk ∷ replicate (suc n) []) })
  unfolding complete
  complete-more d front chunk n =
      let missing : all_filled (front ++ chunk ∷ replicate (suc n) []) ≡ false =
        all_filled_missing front chunk (replicate n []) in
      rw missing refl

pub bad_size_last :
    (d : Download) (i n : ℕ)
    → d.pieces_num ≡ i + 1
    → i < 1000
    → d.metadata_size % block ≡ n
    → bad_size d i n ≡ false
bad_size_last d i n num few size =
    let last : is_last i d.pieces_num ≡ true =
      (==_iff i ((d.pieces_num + 2 ^ 64 - 1) % 2 ^ 64)).1 (omega arith) in
    let right : (n == d.metadata_size % block) ≡ true =
      (==_iff n (d.metadata_size % block)).1 (sym size) in
    rw (last, right) refl

pub bad_size_inner :
    (d : Download) (i n : ℕ)
    → i + 1 < d.pieces_num
    → d.pieces_num ≤ 1000
    → n ≡ block
    → bad_size d i n ≡ false
bad_size_inner d i n num few size =
    let inner : is_last i d.pieces_num ≡ false = ground arith in
    let right : (n == block) ≡ true = (==_iff n block).1 size in rw (inner, right) refl

pub concat_next :
    (front : List Bytes) (n : ℕ) (input : Bytes)
    → concat (front ++ take n input ∷ []) ++ drop n input ≡ concat front ++ input
concat_next front n input =
    let joined : concat (front ++ take n input ∷ []) ≡ concat front ++ take n input =
      concat-append front (take n input ∷ [])
      ∙ ap (λ s. concat front ++ s) (concat_one (take n input)) in
    rw joined (
      append_assoc (concat front) (take n input) (drop n input)
      ∙ ap (λ s. concat front ++ s) (take-append-drop n input))
