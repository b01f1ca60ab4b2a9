-- ===== src/Mmu/Plan/Mapped.antt =====
-- src/arch/aarch64/mmu/mod.rs, `apply`: disjoint mappings are mapped one after another.
use Prim.Native.String.{String}
use zheos.Common.{ℕ, ◌+◌, ◌^◌, ◌≤◌, ◌<◌, ◌≡◌, ◌⊎◌, inl, inr, ◌∙◌, sym, some, none, List, [], ◌∷◌}
use zheos.Mmu.Level.{level1}
use zheos.Mmu.Descriptor.{Descriptor}
use zheos.Mmu.Table.{
  Words, State, MapError, out_of_memory, unaligned, block_in_the_way, table_in_the_way,
}
use zheos.Mmu.Table.Ends.{Explained}
use zheos.Mmu.Table.Walk.{Places, walk}
use zheos.Mmu.Table.Maps.{IsMapped}
use zheos.Mmu.Table.Identity.{IsRooted, Within, Outside}
use zheos.Mmu.Plan.{Mapping, PlanError, no_table, failed, overlap}
use zheos.Mmu.Plan.Apart.{All}

-- Every address of a mapping with a template is mapped to itself by the template.
abbrev pub IsServed : {H : Type 0} → State H → ℕ → Mapping → Type 0
IsServed s t m =
    (template : Descriptor)
    → m.template ≡ some template
    → (va : ℕ) → Within va m.region
    → IsMapped template va (walk s.words t va level1)

abbrev pub IsUntouched : ℕ → Mapping → Type 0
IsUntouched va m = (m.template ≡ none) ⊎ Outside va m.region

pub record PlanMaps {H : Type 0} (Given : H → ℕ → Type 0) (s : State H) (t : ℕ)
    (plan : List Mapping) (u : Unit {0}) (s' : State H) : Type 0 where
  pub places' : Places
  pub rooted : IsRooted Given places' s' t
  pub served : All (IsServed s' t) plan
  pub others :
      (va : ℕ)
      → va < 2 ^ 39
      → All (IsUntouched va) plan
      → walk s'.words t va level1 ≡ walk s.words t va level1

-- The mapping of that name failed, with the reason in the memory before.
abbrev pub FailedIn : Type 0 → Words → ℕ → List Mapping → String → MapError → Type 0
FailedIn Dry words t [] name e = ⊥
FailedIn Dry words t (m ∷ plan) name e =
    ((name ≡ m.name) × Explained Dry words t level1 m.region.base (m.region.base + m.region.size) e)
    ⊎ FailedIn Dry words t plan name e

abbrev pub Failure : Type 0 → Words → ℕ → List Mapping → PlanError → Type 0
Failure Dry words t plan no_table = ⊥
Failure Dry words t plan (overlap one other) = ⊥
Failure Dry words t plan (failed name e) = FailedIn Dry words t plan name e

Explained-same :
    (Dry : Type 0) (words words' : Words) (t base stop : ℕ)
    → ((va : ℕ) → base ≤ va → va < stop → walk words' t va level1 ≡ walk words t va level1)
    → (e : MapError) → Explained Dry words' t level1 base stop e
    → Explained Dry words t level1 base stop e
Explained-same Dry words words' t base stop same out_of_memory x = x
Explained-same Dry words words' t base stop same (unaligned a) x = x
Explained-same Dry words words' t base stop same (block_in_the_way a at) (d, lo, hi, found) =
    (d, lo, hi, sym (same a lo hi) ∙ found)
Explained-same Dry words words' t base stop same (table_in_the_way a at)
      (x, lo, hi, (d, leaf_at, found)) =
    (x, lo, hi, (d, leaf_at, sym (same x lo hi) ∙ found))

-- The memory changes, and no walk from an address of the plan does.
pub FailedIn-same :
    (Dry : Type 0) (words words' : Words) (t : ℕ) (plan : List Mapping)
    → All
        (λ m. (va : ℕ) → Within va m.region → walk words' t va level1 ≡ walk words t va level1)
        plan
    → (name : String) (e : MapError) → FailedIn Dry words' t plan name e
    → FailedIn Dry words t plan name e
FailedIn-same Dry words words' t [] same name e x = x
FailedIn-same Dry words words' t (m ∷ plan) (same, rest) name e (inl (is, x)) =
    inl (is, Explained-same Dry words words' t _ _ (λ va lo hi. same va (lo, hi)) e x)
FailedIn-same Dry words words' t (m ∷ plan) (same, rest) name e (inr x) =
    inr (FailedIn-same Dry words words' t plan rest name e x)
