-- ===== src/Mmu/Plan/Loop.antt =====
-- src/arch/aarch64/mmu/mod.rs, `apply`: the loop over disjoint mappings.
use zheos.Common.{
  ℕ, ◌+◌, ◌≤◌, ◌≡◌, inl, inr, refl, ◌∙◌, subst, arith, some, List, [], ◌∷◌, Option-cases,
}
use zheos.Mmu.Level.{level1}
use zheos.Mmu.Descriptor.{Descriptor}
use zheos.Mmu.Table.{Alloc, State, identity_map}
use zheos.Mmu.Table.Ends.{IsAllocator, IsDry, Explained}
use zheos.Mmu.Table.Walk.{Places, walk}
use zheos.Mmu.Table.Maps.{Maps, IsMapped}
use zheos.Mmu.Table.Identity.{IsRooted, IsRoot-Covers, identity_map-Maps}
use zheos.Mmu.Plan.{Mapping, PlanError, no_table, failed, overlap, named, map_plan}
use zheos.Mmu.Plan.Ends.{Ends, Ends-bind, Ends-weaken, Ends-named}
use zheos.Mmu.Plan.Apart.{All, All-map, All-both, AreApart-sym, IsMapping, AreApart, Disjoint}
use zheos.Mmu.Plan.Mapped.{IsUntouched, PlanMaps, Failure, FailedIn-same}

module _ {H : Type 0} (alloc_layout : Alloc H) (Given : H → ℕ → Type 0)
    (lawful : IsAllocator alloc_layout Given) (fuel : ℕ) (enough : 1542 ≤ fuel) (t : ℕ) where
  abbrev Fails : State H → List Mapping → State H → PlanError → Type 0
  Fails s plan z = Failure (IsDry alloc_layout z) s.words t plan

  -- What one mapping of the plan does.
  abbrev MapsOne : State H → Mapping → Unit {0} → State H → Type 0
  MapsOne s m u s' = PlanMaps Given s t (m ∷ []) u s'

  identity_map-MapsOne :
      (places : Places) (s : State H) (m : Mapping) (template : Descriptor)
      → IsRooted Given places s t
      → IsMapping m
      → m.template ≡ some template
      → Ends
          (MapsOne s m)
          (Fails s (m ∷ []))
          (named m.name (identity_map alloc_layout fuel s t m.region template))
  identity_map-MapsOne places s m template rooted ok is =
      let base = m.region.base in
      let stop = m.region.base + m.region.size in
      Ends-weaken (Maps Given template places s t level1 base stop) (MapsOne s m) (Fails s (m ∷ []))
        (Fails s (m ∷ [])) (named m.name (identity_map alloc_layout fuel s t m.region template))
        (Ends-named (Maps Given template places s t level1 base stop)
          (λ z. Explained (IsDry alloc_layout z) s.words t level1 base stop) (Fails s (m ∷ []))
          m.name (identity_map alloc_layout fuel s t m.region template)
          (identity_map-Maps alloc_layout Given lawful template (ok.index template is) places s t
            rooted m.region ok.bound fuel enough)
          (λ z e x. inl (refl, x)))
        (λ u s' maps. record {
          places' = maps.places';
          rooted = record {
            tree = maps.grows.tree;
            owns = maps.owns;
            root = maps.grows.placed t _ rooted.root;
            full = maps.full 0 (λ b. let low = ok.bound in omega arith) rooted.full;
          };
          served = (
            λ other same va inside.
                let one : template ≡ other = cc in
                subst (λ d. IsMapped d va (walk s'.words t va level1)) one
                  (maps.mapped va inside.0 inside.1),
            tt,
          );
          others = λ va low untouched. elim untouched.0 [
            | inl absent ↦ cc
            | inr outside ↦
                maps.grows.outside va outside t level1 (IsRoot-Covers places t va rooted.root low)
          ];
        })
        (λ z e x. x)

  -- One mapping and then the others, which it is apart from.
  PlanMaps-cons :
      (s s' s'' : State H) (m : Mapping) (plan : List Mapping) (u v : Unit {0})
      → IsMapping m
      → All (AreApart m) plan
      → PlanMaps Given s t (m ∷ []) u s'
      → PlanMaps Given s' t plan v s''
      → PlanMaps Given s t (m ∷ plan) v s''
  PlanMaps-cons s s' s'' m plan u v ok apart first rest = record {
    places' = rest.places';
    rooted = rest.rooted;
    served = (
      λ template is va inside.
          let (at, e) = first.served.0 template is va inside in
          (
            at,
            rest.others va (omega (arith, ok.bound))
                  (All-map (AreApart m) (IsUntouched va) plan (λ o a. inr (a va inside)) apart)
                ∙ e,
          ),
      rest.served,
    );
    others =
        λ va low untouched. rest.others va low untouched.1 ∙ first.others va low (untouched.0, tt);
  }

  Failure-cons :
      (s s' : State H) (m : Mapping) (plan : List Mapping) (u : Unit {0})
      → All IsMapping plan
      → All (AreApart m) plan
      → PlanMaps Given s t (m ∷ []) u s'
      → (z : State H) (e : PlanError) → Fails s' plan z e
      → Fails s (m ∷ plan) z e
  Failure-cons s s' m plan u all apart first z no_table x = x
  Failure-cons s s' m plan u all apart first z (overlap one other) x = x
  Failure-cons s s' m plan u all apart first z (failed name e) x = inr (
      FailedIn-same (IsDry alloc_layout z) s.words s'.words t plan
        (All-both IsMapping (AreApart m) _ plan
          (λ o ok a va inside.
            first.others va (omega (arith, ok.bound)) (inr (AreApart-sym m o a va inside), tt))
          all apart)
        name e x)

  Failure-one :
      (s : State H) (m : Mapping) (plan : List Mapping) (z : State H) (e : PlanError)
      → Fails s (m ∷ []) z e
      → Fails s (m ∷ plan) z e
  Failure-one s m plan z no_table x = x
  Failure-one s m plan z (overlap one other) x = x
  Failure-one s m plan z (failed name e) (inl x) = inl x
  Failure-one s m plan z (failed name e) (inr x) = absurd x

  Failure-skip :
      (s : State H) (m : Mapping) (plan : List Mapping) (z : State H) (e : PlanError)
      → Fails s plan z e
      → Fails s (m ∷ plan) z e
  Failure-skip s m plan z no_table x = x
  Failure-skip s m plan z (overlap one other) x = x
  Failure-skip s m plan z (failed name e) x = inr x

  pub map_plan-PlanMaps :
      (plan : List Mapping) (places : Places) (s : State H)
      → IsRooted Given places s t
      → All IsMapping plan
      → Disjoint plan
      → Ends (PlanMaps Given s t plan) (Fails s plan) (map_plan alloc_layout fuel s t plan)
  unfolding map_plan
  map_plan-PlanMaps [] places s rooted all apart = record {
    places' = places;
    rooted = rooted;
    served = tt;
    others = λ va low untouched. refl;
  }
  map_plan-PlanMaps (m ∷ plan) places s rooted (ok, all) (apart, rest) =
      elim (Option-cases m.template) [
        | inl absent ↦
            rw (absent, Ends, map_plan)
              (Ends-weaken (PlanMaps Given s t plan) (PlanMaps Given s t (m ∷ plan)) (Fails s plan)
                (Fails s (m ∷ plan)) (map_plan alloc_layout fuel s t plan)
                (map_plan-PlanMaps plan places s rooted all rest)
                (λ u s' r. record {
                  places' = r.places';
                  rooted = r.rooted;
                  served = (λ template is va inside. cc, r.served);
                  others = λ va low untouched. r.others va low untouched.1;
                })
                (Failure-skip s m plan))
        | inr (template, is) ↦
            rw (is, Ends, map_plan)
              (Ends-bind (MapsOne s m) (PlanMaps Given s t (m ∷ plan)) (Fails s (m ∷ plan))
                (named m.name (identity_map alloc_layout fuel s t m.region template))
                (λ u s'. map_plan alloc_layout fuel s' t plan)
                (Ends-weaken (MapsOne s m) (MapsOne s m) (Fails s (m ∷ [])) (Fails s (m ∷ plan))
                  (named m.name (identity_map alloc_layout fuel s t m.region template))
                  (identity_map-MapsOne places s m template rooted ok is) (λ u s' x. x)
                  (Failure-one s m plan))
                (λ u s' first.
                  Ends-weaken (PlanMaps Given s' t plan) (PlanMaps Given s t (m ∷ plan))
                    (Fails s' plan) (Fails s (m ∷ plan)) (map_plan alloc_layout fuel s' t plan)
                    (map_plan-PlanMaps plan first.places' s' first.rooted all rest)
                    (λ v s''. PlanMaps-cons s s' s'' m plan u v ok apart first)
                    (Failure-cons s s' m plan u all apart first)))
      ]
