-- ===== src/Dht/Acts.antt =====
-- Postconditions of the work of a node: what holds of the state and the outputs.
use dht_spider.Prelude.{none, some, List, [], All, ◌∷◌, ◌++◌}
use dht_spider.Dht.{Dht, Output, Act, behind, and_then, each}

abbrev pub Says : (Dht → List Output → Type 0) → Act → Type 0
Says P none = Unit
Says P (some (d, out)) = P d out

-- No panic, and an invariant of the state afterwards.
abbrev pub Keeps : (Dht → Type 0) → Act → Type 0
Keeps P none = ⊥
Keeps P (some (d, out)) = P d

pub behind-Keeps :
    (P : Dht → Type 0) (out : List Output) (a : Act) → Keeps P a → Keeps P (behind out a)
behind-Keeps P out none h = h
behind-Keeps P out (some (d, more)) h = h

pub and_then-Keeps :
    (P : Dht → Type 0) (a : Act) (f : Dht → Act)
    → Keeps P a
    → ((d : Dht) → P d → Keeps P (f d))
    → Keeps P (and_then a f)
and_then-Keeps P none f h k = absurd h
and_then-Keeps P (some (d, out)) f h k = behind-Keeps P out (f d) (k d h)

-- Each round may use what is known of its element.
pub each-KeepsAll {ℓ} :
    {A : Type ℓ} (P : Dht → Type 0) (f : Dht → A → Act) (xs : List A)
    → All (λ (x : A). (d : Dht) → P d → Keeps P (f d x)) xs
    → (d : Dht) → P d
    → Keeps P (each f xs d)
unfolding each
each-KeepsAll P f [] k d h = h
each-KeepsAll P f (x ∷ xs) k d h =
    and_then-Keeps P (f d x) (each f xs) (k.0 d h) (each-KeepsAll P f xs k.1)

pub each-Keeps {ℓ} :
    {A : Type ℓ} (P : Dht → Type 0) (f : Dht → A → Act) (xs : List A)
    → ((d : Dht) (x : A) → P d → Keeps P (f d x))
    → (d : Dht) → P d
    → Keeps P (each f xs d)
unfolding each
each-Keeps P f [] k d h = h
each-Keeps P f (x ∷ xs) k d h = and_then-Keeps P (f d x) (each f xs) (k d x h) (each-Keeps P f xs k)

pub Says-Keeps :
    (P : Dht → Type 0) (Q : Dht → List Output → Type 0) (a : Act)
    → ((d : Dht) (out : List Output) → P d → Q d out)
    → Keeps P a
    → Says Q a
Says-Keeps P Q none k h = tt
Says-Keeps P Q (some (d, out)) k h = k d out h

pub behind-Says :
    (P : Dht → Type 0) (out : List Output) (a : Act)
    → Says (λ d more. P d) a
    → Says (λ d more. P d) (behind out a)
behind-Says P out none h = tt
behind-Says P out (some (d, more)) h = h

pub and_then-Says :
    (P : Dht → Type 0) (Q : Dht → List Output → Type 0) (a : Act) (f : Dht → Act)
    → Says (λ d out. P d) a
    → ((d : Dht) (out : List Output) → P d → Says (λ d' more. Q d' (out ++ more)) (f d))
    → Says Q (and_then a f)
and_then-Says P Q none f h k = tt
and_then-Says P Q (some (d, out)) f h k = after (f d) (k d out h)
  where
    after : (a : Act) → Says (λ d' more. Q d' (out ++ more)) a → Says Q (behind out a)
    after none h = tt
    after (some (d', more)) h = h

pub Says-weaken :
    (P Q : Dht → List Output → Type 0) (a : Act)
    → ((d : Dht) (out : List Output) → P d out → Q d out)
    → Says P a
    → Says Q a
Says-weaken P Q none f h = tt
Says-weaken P Q (some (d, out)) f h = f d out h
