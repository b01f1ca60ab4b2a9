-- ===== src/Ring/Queue.antt =====
-- What the ring promises: a first-in first-out queue that holds at most `cap` values and drops
-- a value pushed when it is full.
use zheos.Common.{ℕ, Option, none, some, List, [], ◌∷◌, ◌++◌, ltb, if◌then◌else◌, length}

pub data Op {ℓ} (A : Type ℓ) : Type ℓ where
  put : A → Op A
  get : Op A

module _ {ℓ} {A : Type ℓ} where
  abbrev pub pop : List A → Option A × List A
  pop [] = (none, [])
  pop (x ∷ q) = (some x, q)

  abbrev pub push : ℕ → List A → A → List A
  push cap q x = if ltb (length q) cap then q ++ (x ∷ []) else q

  unfoldable pub run : ℕ → List A → List (Op A) → List (Option A)
  run cap q [] = []
  run cap q (put x ∷ ops) = run cap (push cap q x) ops
  run cap q (get ∷ ops) = let (out, q') = pop q in out ∷ run cap q' ops
