-- ===== src/Ring/Tests.antt =====
-- Runs of src/lib/ring_buffer.rs, and its theorem at one of them.
use zheos.Common.{ℕ, ◌≡◌, refl, none, some, List, [], ◌∷◌}
use zheos.Ring.Queue
use zheos.Ring.Queue.{Op, put, get}
use zheos.Ring.{new, push, pop, run}
use zheos.Ring.Refine.{run-new}

abbrev calls : List (Op ℕ)
calls = put 7 ∷ put 8 ∷ get ∷ put 9 ∷ get ∷ get ∷ get ∷ []

run-calls : run (new 0) calls ≡ some 7 ∷ some 8 ∷ some 9 ∷ none ∷ []
unfolding run new push pop
run-calls = refl

run-new_example : run (new 0) calls ≡ Queue.run 256 [] calls
run-new_example = run-new 0 calls
