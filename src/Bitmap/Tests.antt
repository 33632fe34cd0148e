-- ===== src/Bitmap/Tests.antt =====
-- Runs of the bitmap, and the theorems at concrete inputs.
use dht_spider.Prelude.{◌≡◌, refl, [], ◌∷◌, some, true, Ordering}
use dht_spider.Std.Order.{bytes_cmp, bytes_eq}
use dht_spider.Bitmap.{
  new, from_bytes, bit, set, unset, compare_prefix, xor, extend_one, matches_id_prefix,
}

program : Unit {0}
unfolding new from_bytes bit set unset compare_prefix xor extend_one matches_id_prefix bytes_cmp
    bytes_eq
program = tt

set_runs : set (new 10) 8 ≡ some (record { size = 10; bytes = 0 ∷ 128 ∷ [] })
unfolding program
set_runs = refl

bit_runs : bit (from_bytes (64 ∷ [])) 1 ≡ some 1
unfolding program
bit_runs = refl

matches_runs :
    matches_id_prefix (record { size = 10; bytes = 7 ∷ 128 ∷ [] }) (7 ∷ 191 ∷ 5 ∷ []) ≡ some true
unfolding program
matches_runs = refl

compare_runs :
    compare_prefix (from_bytes (7 ∷ 128 ∷ [])) (from_bytes (7 ∷ 64 ∷ [])) 10 ≡ some Ordering.gt
unfolding program
compare_runs = refl
