-- ===== src/Transaction/Ids.antt =====
-- Transaction ids do not repeat before the cursor has run through its range.
use native.Mathlib.Nat.{div-add-mod}
use dht_spider.Prelude.{ℕ, zero, suc, ◌+◌, ◌%◌, ◌^◌, ◌<◌, ◌≤◌, ◌≡◌, ◌≢◌, refl, arith}
use dht_spider.Util.Laws.{int2bytes-injective}
use dht_spider.Util.{int2bytes}
use dht_spider.Transaction.{TransactionManager, gen_id}

-- Two numbers less than `m` apart leave different remainders.
mod-ne : (m c d : ℕ) → c < d → d < c + m → c % m ≢ d % m
mod-ne m c d lt near e = grind (arith, div-add-mod c m, div-add-mod d m)

-- The manager after `n` ids have been drawn.
unfoldable pub draw : ℕ → TransactionManager → TransactionManager
draw zero m = m
draw (suc n) m = draw n (gen_id m).1

draw-cursor :
    (n : ℕ) (m : TransactionManager)
    → m.cursor + n < 2 ^ 64
    → ((draw n m).cursor ≡ m.cursor + n) × ((draw n m).max_cursor ≡ m.max_cursor)
unfolding draw gen_id
draw-cursor zero m h = (omega arith, refl)
draw-cursor (suc n) m h =
    let next : (m.cursor + 1) % 2 ^ 64 ≡ m.cursor + 1 = omega arith in
    let (cursor, bound) = draw-cursor n (gen_id m).1 (omega arith) in (omega arith, bound)

-- Ids that are drawn less than `max_cursor` draws apart differ, until the cursor wraps.
pub gen_id-ne :
    (m : TransactionManager) (i j : ℕ)
    → i < j
    → j < i + m.max_cursor
    → m.cursor + j < 2 ^ 64
    → m.max_cursor ≤ 2 ^ 64
    → (gen_id (draw i m)).0 ≢ (gen_id (draw j m)).0
unfolding gen_id
gen_id-ne m i j lt near fits bound e =
    let (ci, bi) = draw-cursor i m (omega arith) in
    let (cj, bj) = draw-cursor j m (omega arith) in
    let e' : int2bytes ((m.cursor + i) % m.max_cursor) ≡ int2bytes ((m.cursor + j) % m.max_cursor) =
      rw (ci, bi, cj, bj) at e in
    mod-ne m.max_cursor (m.cursor + i) (m.cursor + j) (omega arith) (omega arith)
      (int2bytes-injective _ _ (omega arith) (omega arith) e')
