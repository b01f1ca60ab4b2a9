-- ===== src/Mmu/Plan/Clear.antt =====
-- src/arch/aarch64/mmu/mod.rs, `apply`: pages that are clear of a plan, and addresses that it leaves alone.
use zheos.Common.{ℕ, ◌+◌, ◌/◌, ◌≡◌, inl, inr, arith, none, List, [], ◌∷◌, map, Bool-cases, ltb}
use zheos.Mm.Region.{Region}
use zheos.Mm.Gaps.Bytes.{IsClear, AllClear, AllRegions}
use zheos.Mmu.Table.Identity.{Within, Outside}
use zheos.Mmu.Plan.{Mapping}
use zheos.Mmu.Plan.Apart.{All, All-map, All-both, IsMapping, AreApart, AreApart-sym, Disjoint}
use zheos.Mmu.Plan.Mapped.{IsUntouched}

abbrev pub regions : List Mapping → List Region
regions plan = map (λ m. m.region) plan

pub AllRegions-plan : (plan : List Mapping) → All IsMapping plan → AllRegions (regions plan)
AllRegions-plan [] all = tt
AllRegions-plan (m ∷ plan) (ok, all) = (omega (arith, ok.bound), AllRegions-plan plan all)

-- An address of a page that is clear of the plan is in none of its regions.
clear-Outside : (m : Mapping) (va : ℕ) → IsClear (va / 4096) m.region → Outside va m.region
clear-Outside m va clear = elim (Bool-cases (ltb va m.region.base)) [
  | inl low ↦ inl (ground arith)
  | inr high ↦ elim (Bool-cases (ltb va (m.region.base + m.region.size))) [
    | inl inside ↦ absurd (clear va (omega arith) (omega arith) (ground arith) (ground arith))
    | inr past ↦ inr (ground arith)
  ]
]

pub clear-IsUntouched :
    (plan : List Mapping) (va : ℕ) → AllClear (va / 4096) (regions plan) → All (IsUntouched va) plan
clear-IsUntouched [] va clear = tt
clear-IsUntouched (m ∷ plan) va (here, rest) =
    (inr (clear-Outside m va here), clear-IsUntouched plan va rest)

-- No address of the plan is in a page that is clear of it.
pub plan-not_clear :
    (plan : List Mapping)
    → All (λ m. (va : ℕ) → Within va m.region → ¬ AllClear (va / 4096) (regions plan)) plan
plan-not_clear [] = tt
plan-not_clear (m ∷ plan) = (
  λ va inside clear. clear.0 va (omega arith) (omega arith) inside.0 inside.1,
  All-map (λ o. (va : ℕ) → Within va o.region → ¬ AllClear (va / 4096) (regions plan)) _ plan
      (λ o h va inside clear. h va inside clear.1) (plan-not_clear plan),
)

-- In a disjoint plan the addresses of a mapping without a template are untouched.
pub guard-IsUntouched :
    (plan : List Mapping)
    → Disjoint plan
    → All (λ m. m.template ≡ none → (va : ℕ) → Within va m.region → All (IsUntouched va) plan) plan
guard-IsUntouched [] apart = tt
guard-IsUntouched (m ∷ plan) (here, rest) = (
  λ absent va inside.
      (inl absent, All-map (AreApart m) (IsUntouched va) plan (λ o a. inr (a va inside)) here),
  All-both (AreApart m)
      (λ o. o.template ≡ none → (va : ℕ) → Within va o.region → All (IsUntouched va) plan) _ plan
      (λ o a h absent va inside. (inr (AreApart-sym m o a va inside), h absent va inside)) here
      (guard-IsUntouched plan rest),
)
