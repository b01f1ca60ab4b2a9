-- ===== src/Mmu/Plan/Clash.antt =====
-- src/arch/aarch64/mmu/mod.rs, `apply`: the overlap that is reported.
use Prim.Native.String.{String}
use zheos.Common.{
  ◌+◌, ◌<◌, ◌≡◌, ◌⊎◌, inl, inr, refl, arith, some, List, [], ◌∷◌, Bool-cases, Option-cases, subst,
}
use zheos.Mmu.Plan.{
  Mapping, PlanError, no_table, failed, overlap, overlaps, overlap_behind, first_overlap,
}
use zheos.Mmu.Plan.Apart.{All, IsMapping}

-- Two mappings of these names reach into one another.
abbrev pub Clashes : Mapping → Mapping → String → String → Type 0
Clashes m o one other =
    (one ≡ m.name)
    × (other ≡ o.name)
    × (m.region.base < o.region.base + o.region.size)
    × (o.region.base < m.region.base + m.region.size)

abbrev pub ClashBehind : Mapping → List Mapping → String → String → Type 0
ClashBehind m [] one other = ⊥
ClashBehind m (o ∷ plan) one other = Clashes m o one other ⊎ ClashBehind m plan one other

abbrev pub Clash : List Mapping → String → String → Type 0
Clash [] one other = ⊥
Clash (m ∷ plan) one other = ClashBehind m plan one other ⊎ Clash plan one other

-- What is reported is an overlap, of two mappings for which `P` holds.
abbrev pub Reports : (String → String → Type 0) → PlanError → Type 0
Reports P no_table = ⊥
Reports P (failed name e) = ⊥
Reports P (overlap one other) = P one other

Reports-weaken :
    (P Q : String → String → Type 0) (e : PlanError)
    → Reports P e
    → ((one other : String) → P one other → Q one other)
    → Reports Q e
Reports-weaken P Q (overlap one other) x f = f one other x
Reports-weaken P Q no_table x f = x
Reports-weaken P Q (failed name e) x f = x

overlap_behind-some :
    (m : Mapping) (plan : List Mapping) (e : PlanError)
    → IsMapping m
    → All IsMapping plan
    → overlap_behind m plan ≡ some e
    → Reports (ClashBehind m plan) e
unfolding overlap_behind
overlap_behind-some m [] e ok all h = cc
overlap_behind-some m (o ∷ plan) e ok (ok', all) h = elim (Bool-cases (overlaps m o)) [
  | inl hit ↦
      let is : overlap m.name o.name ≡ e = ground arith in
      let b = ok.bound in
      let c = ok'.bound in
      subst (Reports (ClashBehind m (o ∷ plan))) is (inl (refl, refl, ground arith, ground arith))
  | inr miss ↦
      Reports-weaken (ClashBehind m plan) (ClashBehind m (o ∷ plan)) e
        (overlap_behind-some m plan e ok all (ground arith)) (λ one other x. inr x)
]

-- The overlap that the check of a plan reports is one.
pub first_overlap-some :
    (plan : List Mapping) (e : PlanError)
    → All IsMapping plan
    → first_overlap plan ≡ some e
    → Reports (Clash plan) e
unfolding first_overlap
first_overlap-some [] e all h = cc
first_overlap-some (m ∷ plan) e (ok, all) h = elim (Option-cases (overlap_behind m plan)) [
  | inl clear ↦
      Reports-weaken (Clash plan) (Clash (m ∷ plan)) e
        (first_overlap-some plan e all (ground arith)) (λ one other x. inr x)
  | inr (x, found) ↦
      let is : x ≡ e = ground arith in
      Reports-weaken (ClashBehind m plan) (Clash (m ∷ plan)) e
        (subst (Reports (ClashBehind m plan)) is (overlap_behind-some m plan x ok all found))
        (λ one other y. inl y)
]
