-- ===== src/Mmu/Plan/Apply.antt =====
-- src/arch/aarch64/mmu/mod.rs, `apply`: the plan, its guards and the rest of the arena.
use zheos.Common.{
  ℕ, ◌+◌, ◌/◌, ◌^◌, ◌≤◌, ◌≡◌, inl, inr, ◌∙◌, sym, arith, none, List, map, Bool-cases, Option-cases,
  true, false, subst,
}
use zheos.Mm.Pfn.{Pfn, from_addr_up, from_addr_down}
use zheos.Mm.Region
use zheos.Mm.Region.{Region}
use zheos.Mm.PageRange.{PageRange}
use zheos.Mm.Gaps.{gaps}
use zheos.Mm.Gaps.Cover.{covered}
use zheos.Mm.Gaps.Bytes.{IsFree, AllClear, gaps-IsFree, gaps-IsOrdered}
use zheos.Mmu.Level.{level1}
use zheos.Mmu.Descriptor.{Descriptor}
use zheos.Mmu.Word.{IsIndex}
use zheos.Mmu.Table.{Alloc, State}
use zheos.Mmu.Table.Ends.{IsAllocator, IsDry}
use zheos.Mmu.Table.Walk.{Places, walk}
use zheos.Mmu.Table.Identity.{IsRooted, Within}
use zheos.Mmu.Plan.{
  Mapping, PlanError, no_table, failed, overlap, first_overlap, apply, map_plan, map_gaps,
}
use zheos.Mmu.Plan.Ends.{Ends, Ends-bind, Ends-weaken}
use zheos.Mmu.Plan.Apart.{All, All-map, All-both, IsMapping, Disjoint, first_overlap-Disjoint}
use zheos.Mmu.Plan.Mapped.{IsServed, IsUntouched, PlanMaps, Failure, FailedIn-same}
use zheos.Mmu.Plan.Loop.{map_plan-PlanMaps}
use zheos.Mmu.Plan.Gap.{
  gap_mapping, map_gaps-map_plan, gaps-IsMapping, gaps-Disjoint, gaps-IsUntouched, gaps-IsMapped,
  gaps-covered-Within,
}
use zheos.Mmu.Plan.Clash.{Clash, Reports, first_overlap-some}
use zheos.Mmu.Plan.Promise.{IsGuarded, IsApplied, Refusal}
use zheos.Mmu.Plan.Clear.{
  regions, AllRegions-plan, clear-IsUntouched, plan-not_clear, guard-IsUntouched,
}

module _ {H : Type 0} (alloc_layout : Alloc H) (Given : H → ℕ → Type 0)
    (lawful : IsAllocator alloc_layout Given) (fuel : ℕ) (enough : 1542 ≤ fuel) (t : ℕ)
    (places : Places) (s : State H) (rooted : IsRooted Given places s t) (arena : Region)
    (bound : arena.base + arena.size ≤ 2 ^ 39) (plan : List Mapping) (all : All IsMapping plan)
    (fill : Descriptor) (index : IsIndex fill.attr_idx) where
  abbrev found : List PageRange
  found = gaps arena (regions plan)

  abbrev gap_plan : List Mapping
  gap_plan = map (gap_mapping fill) found

  abbrev first_page : Pfn
  first_page = from_addr_up arena.base

  abbrev last_page : Pfn
  last_page = from_addr_down (Region.end arena)

  last_page-bound : last_page ≤ 2 ^ 27
  last_page-bound = omega arith

  page-IsFree : (p : Pfn) → covered found p ≡ true → IsFree arena (regions plan) p
  page-IsFree p e =
      (gaps-IsFree arena (regions plan) (omega arith) (AllRegions-plan plan all) p).0 e

  -- The addresses of the plan are in no gap.
  plan-uncovered : All (λ m. (va : ℕ) → Within va m.region → covered found (va / 4096) ≡ false) plan
  plan-uncovered =
      All-map (λ m. (va : ℕ) → Within va m.region → ¬ AllClear (va / 4096) (regions plan)) _ plan
        (λ m h va inside. elim (Bool-cases (covered found (va / 4096))) [
          | inl free ↦ absurd (h va inside (page-IsFree (va / 4096) free).1)
          | inr used ↦ used
        ])
        (plan-not_clear plan)

  module _ (apart : Disjoint plan) (u : Unit {0}) (s' : State H)
      (first : PlanMaps Given s t plan u s') (v : Unit {0}) (s'' : State H)
      (second : PlanMaps Given s' t gap_plan v s'') where
    IsUntouched-by_gaps :
        (va : ℕ) → covered found (va / 4096) ≡ false → All (IsUntouched va) gap_plan
    IsUntouched-by_gaps va e =
        gaps-IsUntouched fill last_page last_page-bound first_page found va
          (gaps-IsOrdered arena (regions plan)) e

    kept_by_gaps :
        (m : Mapping)
        → IsMapping m
        → ((va : ℕ) → Within va m.region → covered found (va / 4096) ≡ false)
        → (va : ℕ) → Within va m.region
        → walk s''.words t va level1 ≡ walk s'.words t va level1
    kept_by_gaps m ok h va inside =
        second.others va (omega (arith, ok.bound)) (IsUntouched-by_gaps va (h va inside))

    both-IsApplied : IsApplied Given arena plan fill s t v s''
    both-IsApplied = record {
      places' = second.places';
      rooted = second.rooted;
      served =
          All-both (IsServed s' t)
            (λ m.
              (va : ℕ)
              → Within va m.region
              → walk s''.words t va level1 ≡ walk s'.words t va level1)
            (IsServed s'' t) plan
            (λ m serve keep template is va inside.
              let (at, e) = serve template is va inside in (at, keep va inside ∙ e))
            first.served (All-both IsMapping _ _ plan kept_by_gaps all plan-uncovered);
      guarded =
          All-both
            (λ m. m.template ≡ none → (va : ℕ) → Within va m.region → All (IsUntouched va) plan)
            (λ m.
              IsMapping m
              × ((va : ℕ)
                  → Within va m.region
                  → walk s''.words t va level1 ≡ walk s'.words t va level1))
            (IsGuarded s s'' t) plan
            (λ m free keep absent va inside.
              keep.1 va inside
              ∙ first.others va (omega (arith, keep.0.bound)) (free absent va inside))
            (guard-IsUntouched plan apart)
            (All-both IsMapping _ _ plan (λ m ok h. (ok, kept_by_gaps m ok h)) all plan-uncovered);
      filled = λ va free.
          gaps-IsMapped fill last_page last_page-bound s'' t first_page found va
            (gaps-IsOrdered arena (regions plan))
            ((gaps-IsFree arena (regions plan) (omega arith) (AllRegions-plan plan all)
                (va / 4096)).1
              free)
            second.served;
      others = λ va low untouched taken.
          second.others va low (
            IsUntouched-by_gaps va (elim (Bool-cases (covered found (va / 4096))) [
              | inl free ↦ absurd (taken (page-IsFree (va / 4096) free))
              | inr used ↦ used
            ]))
          ∙ first.others va low untouched;
    }

  Failure-plan :
      (z : State H) (e : PlanError)
      → Failure (IsDry alloc_layout z) s.words t plan e
      → Refusal (IsDry alloc_layout z) s.words t arena plan fill e
  Failure-plan z no_table x = x
  Failure-plan z (overlap one other) x = absurd x
  Failure-plan z (failed name e) x = inl x

  Refusal-overlap :
      (z : State H) (e : PlanError)
      → Reports (Clash plan) e
      → Refusal (IsDry alloc_layout z) s.words t arena plan fill e
  Refusal-overlap z no_table x = x
  Refusal-overlap z (overlap one other) x = x
  Refusal-overlap z (failed name e) x = absurd x

  Failure-gaps :
      (u : Unit {0}) (s' : State H)
      → PlanMaps Given s t plan u s'
      → (z : State H) (e : PlanError) → Failure (IsDry alloc_layout z) s'.words t gap_plan e
      → Refusal (IsDry alloc_layout z) s.words t arena plan fill e
  Failure-gaps u s' first z no_table x = x
  Failure-gaps u s' first z (overlap one other) x = absurd x
  Failure-gaps u s' first z (failed name e) x = inr (
      FailedIn-same (IsDry alloc_layout z) s.words s'.words t gap_plan
        (All-both IsMapping (λ m. (va : ℕ) → Within va m.region → covered found (va / 4096) ≡ true)
          _ gap_plan
          (λ m ok h va inside.
            first.others va (omega (arith, ok.bound))
              (clear-IsUntouched plan va (page-IsFree (va / 4096) (h va inside)).1))
          (gaps-IsMapping fill last_page last_page-bound first_page found index
            (gaps-IsOrdered arena (regions plan)))
          (gaps-covered-Within fill last_page last_page-bound first_page found
            (gaps-IsOrdered arena (regions plan))))
        name e x)

  -- `apply` ends in the fuel. If it is done, every mapping with a template is mapped to itself by it, every
  -- mapping without one is as it was, every page of the arena that no mapping touches is mapped to itself by
  -- `fill`, and all other addresses are as they were; if not, two mappings reach into one another, or a region is named that
  -- cannot be mapped, for a reason that held of it before, or for want of a page when the heap is asked for
  -- the last time.
  pub apply-IsApplied :
      Ends
        (IsApplied Given arena plan fill s t)
        (λ z. Refusal (IsDry alloc_layout z) s.words t arena plan fill)
        (apply alloc_layout fuel s t arena plan fill)
  unfolding apply
  apply-IsApplied = elim (Option-cases (first_overlap plan)) [
    | inr (e, some_overlap) ↦
        rw (some_overlap, Ends, apply)
          (Refusal-overlap s e (first_overlap-some plan e all some_overlap))
    | inl clear ↦
        let apart = first_overlap-Disjoint plan all clear in
        let Q = IsApplied Given arena plan fill s t in
        let E : State H → PlanError → Type 0 =
          λ z. Refusal (IsDry alloc_layout z) s.words t arena plan fill in
        rw (clear, Ends, apply)
          (Ends-bind (PlanMaps Given s t plan) Q E (map_plan alloc_layout fuel s t plan)
            (λ u s'. map_gaps alloc_layout fuel s' t found fill)
            (Ends-weaken (PlanMaps Given s t plan) (PlanMaps Given s t plan)
              (λ z. Failure (IsDry alloc_layout z) s.words t plan) E
              (map_plan alloc_layout fuel s t plan)
              (map_plan-PlanMaps alloc_layout Given lawful fuel enough t plan places s rooted all
                apart)
              (λ u s' x. x) Failure-plan)
            (λ u s' first.
              subst (λ r. Ends Q E r) (sym (map_gaps-map_plan alloc_layout fuel s' t found fill))
                (Ends-weaken (PlanMaps Given s' t gap_plan) Q
                  (λ z. Failure (IsDry alloc_layout z) s'.words t gap_plan) E
                  (map_plan alloc_layout fuel s' t gap_plan)
                  (map_plan-PlanMaps alloc_layout Given lawful fuel enough t gap_plan first.places'
                    s' first.rooted
                    (gaps-IsMapping fill last_page last_page-bound first_page found index
                      (gaps-IsOrdered arena (regions plan)))
                    (gaps-Disjoint fill last_page last_page-bound first_page found
                      (gaps-IsOrdered arena (regions plan))))
                  (both-IsApplied apart u s' first) (Failure-gaps u s' first))))
  ]
