-- ===== src/Mmu/Plan/Ends.antt =====
-- src/arch/aarch64/mmu/mod.rs: what holds of a result of `apply`.
use Prim.Native.String.{String}
use zheos.Mmu.Table
use zheos.Mmu.Table.{Result, MapError}
use zheos.Mmu.Plan.{
  PlanError, no_table, failed, Applied, applied, refused, stuck, bind, named, with_table,
}

-- A result within the fuel: `P` of what is applied, `E` of an error and the state behind it.
abbrev pub Ends :
    {S A : Type 0} → (A → S → Type 0) → (S → PlanError → Type 0) → Applied S A → Type 0
Ends P E (applied a s) = P a s
Ends P E (refused e s) = E s e
Ends P E stuck = ⊥

pub Ends-bind :
    {S A B : Type 0} (P : A → S → Type 0) (Q : B → S → Type 0) (E : S → PlanError → Type 0)
    (r : Applied S A) (f : A → S → Applied S B)
    → Ends P E r
    → ((a : A) (s : S) → P a s → Ends Q E (f a s))
    → Ends Q E (bind r f)
Ends-bind P Q E (applied a s) f h next = next a s h
Ends-bind P Q E (refused e s) f h next = h
Ends-bind P Q E stuck f h next = h

pub Ends-weaken :
    {S A : Type 0} (P Q : A → S → Type 0) (E F : S → PlanError → Type 0) (r : Applied S A)
    → Ends P E r
    → ((a : A) (s : S) → P a s → Q a s)
    → ((s : S) (e : PlanError) → E s e → F s e)
    → Ends Q F r
Ends-weaken P Q E F (applied a s) h good bad = good a s h
Ends-weaken P Q E F (refused e s) h good bad = bad s e h
Ends-weaken P Q E F stuck h good bad = h

pub Ends-named :
    {S A : Type 0} (P : A → S → Type 0) (E : S → MapError → Type 0) (F : S → PlanError → Type 0)
    (name : String) (r : Result S A)
    → Table.Ends.Ends P E r
    → ((s : S) (e : MapError) → E s e → F s (failed name e))
    → Ends P F (named name r)
Ends-named P E F name (Table.done a s) h bad = h
Ends-named P E F name (Table.failed e s) h bad = bad s e h
Ends-named P E F name Table.stuck h bad = h

pub Ends-with_table :
    {S A : Type 0} (P : A → S → Type 0) (E : S → MapError → Type 0) (F : S → PlanError → Type 0)
    (r : Result S A)
    → Table.Ends.Ends P E r
    → ((s : S) (e : MapError) → E s e → F s no_table)
    → Ends P F (with_table r)
Ends-with_table P E F (Table.done a s) h bad = h
Ends-with_table P E F (Table.failed e s) h bad = bad s e h
Ends-with_table P E F Table.stuck h bad = h
