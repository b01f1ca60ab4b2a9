-- ===== src/Mmu/Plan/Promise.antt =====
-- src/arch/aarch64/mmu/mod.rs, `apply`: what it leaves when it is done, and why it refuses a plan.
use zheos.Common.{ℕ, ◌/◌, ◌^◌, ◌<◌, ◌≡◌, ◌⊎◌, none, List, map}
use zheos.Mm.Region.{Region}
use zheos.Mm.Gaps.{gaps}
use zheos.Mm.Gaps.Bytes.{IsFree}
use zheos.Mmu.Level.{level1}
use zheos.Mmu.Descriptor.{Descriptor}
use zheos.Mmu.Table.{Words, State}
use zheos.Mmu.Table.Walk.{Places, walk}
use zheos.Mmu.Table.Maps.{IsMapped}
use zheos.Mmu.Table.Identity.{IsRooted, Within}
use zheos.Mmu.Plan.{Mapping, PlanError, no_table, failed, overlap}
use zheos.Mmu.Plan.Apart.{All}
use zheos.Mmu.Plan.Mapped.{IsServed, IsUntouched, FailedIn}
use zheos.Mmu.Plan.Gap.{gap_mapping}
use zheos.Mmu.Plan.Clash.{Clash}
use zheos.Mmu.Plan.Clear.{regions}

-- A mapping without a template, such as a guard page, is as it was.
abbrev pub IsGuarded : {H : Type 0} → State H → State H → ℕ → Mapping → Type 0
IsGuarded s s' t m =
    m.template ≡ none
    → (va : ℕ) → Within va m.region
    → walk s'.words t va level1 ≡ walk s.words t va level1

pub record IsApplied {H : Type 0} (Given : H → ℕ → Type 0) (arena : Region) (plan : List Mapping)
    (fill : Descriptor) (s : State H) (t : ℕ) (u : Unit {0}) (s' : State H) : Type 0 where
  pub places' : Places
  pub rooted : IsRooted Given places' s' t
  pub served : All (IsServed s' t) plan
  pub guarded : All (IsGuarded s s' t) plan
  pub filled :
      (va : ℕ)
      → IsFree arena (regions plan) (va / 4096)
      → IsMapped fill va (walk s'.words t va level1)
  pub others :
      (va : ℕ)
      → va < 2 ^ 39
      → All (IsUntouched va) plan
      → ¬ IsFree arena (regions plan) (va / 4096)
      → walk s'.words t va level1 ≡ walk s.words t va level1

-- Why a plan is refused: two of its mappings overlap, or one of them or of the gaps cannot be mapped.
abbrev pub Refusal : Type 0 → Words → ℕ → Region → List Mapping → Descriptor → PlanError → Type 0
Refusal Dry words t arena plan fill no_table = ⊥
Refusal Dry words t arena plan fill (overlap one other) = Clash plan one other
Refusal Dry words t arena plan fill (failed name e) =
    FailedIn Dry words t plan name e
    ⊎ FailedIn Dry words t (map (gap_mapping fill) (gaps arena (regions plan))) name e
