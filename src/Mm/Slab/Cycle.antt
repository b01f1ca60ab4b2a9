-- ===== src/Mm/Slab/Cycle.antt =====
-- src/mm/slab/mod.rs: `alloc` and `free` one after the other.
use zheos.Common.{ℕ, ◌+◌, ◌-◌, ◌*◌, ◌≡◌, subst, some, List, ◌∷◌, arith, ok}
use zheos.Mm.Entry.{SlabEntry}
use zheos.Mm.Slab.{Slab, Store, alloc, free}
use zheos.Mm.Slab.Chain.{slot_at}
use zheos.Mm.Slab.Holds.{Holds, with_head}
use zheos.Mm.Slab.Taken.{alloc-Holds}
use zheos.Mm.Slab.Given.{free-Holds}

-- An object that is freed behind its `alloc` leaves the slab with the same free slots in the same
-- order and the same number in use as before.
pub alloc-free :
    {st : Store} {p : Slab} {e : SlabEntry} {shift count i : ℕ} {is : List ℕ}
    → Holds st p e shift count (i ∷ is)
    → (taken : Store) × (given : Store) × (alloc st p
        ≡ ok (some (slot_at (p * 4096) shift i), taken))
      × (free taken p (slot_at (p * 4096) shift i) ≡ ok given)
      × Holds given p (with_head e (i ∷ is) e.in_use) shift count (i ∷ is)
alloc-free {st} {p} {e} {shift} {count} {i} {is} h =
    let (taken, took, kept, _, _) = alloc-Holds i is h in
    let (given, gave, back, _) = free-Holds i kept h.below.0 h.distinct.0 (omega arith) in
    let same : e.in_use + 1 - 1 ≡ e.in_use = omega arith in
    (
      taken,
      given,
      took,
      gave,
      subst (λ n. Holds given p (with_head e (i ∷ is) n) shift count (i ∷ is)) same back,
    )
