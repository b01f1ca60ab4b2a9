-- ===== src/Mmu/Plan/Apart.antt =====
-- src/arch/aarch64/mmu/mod.rs, `apply`: mappings that do not overlap.
use zheos.Common.{
  ℕ, ◌+◌, ◌^◌, ◌≤◌, ◌≡◌, inl, inr, arith, some, none, List, [], ◌∷◌, Bool-cases, false, ltb, leb,
  Option-cases,
}
use zheos.Mmu.Descriptor.{Descriptor}
use zheos.Mmu.Word.{IsIndex}
use zheos.Mmu.Table.Identity.{Within, Outside}
use zheos.Mmu.Plan.{Mapping, overlaps, overlap_behind, first_overlap}

abbrev pub All : (Mapping → Type 0) → List Mapping → Type 0
All P [] = Unit {0}
All P (m ∷ plan) = P m × All P plan

pub All-map :
    (P Q : Mapping → Type 0) (plan : List Mapping)
    → ((m : Mapping) → P m → Q m)
    → All P plan
    → All Q plan
All-map P Q [] f x = tt
All-map P Q (m ∷ plan) f (p, x) = (f m p, All-map P Q plan f x)

pub All-both :
    (P Q R : Mapping → Type 0) (plan : List Mapping)
    → ((m : Mapping) → P m → Q m → R m)
    → All P plan
    → All Q plan
    → All R plan
All-both P Q R [] f x y = tt
All-both P Q R (m ∷ plan) f (p, x) (q, y) = (f m p q, All-both P Q R plan f x y)

-- The region lies in the 39-bit address space, and the memory type of the template fits its field.
pub record IsMapping (m : Mapping) : Type 0 where
  pub bound : m.region.base + m.region.size ≤ 2 ^ 39
  pub index : (template : Descriptor) → m.template ≡ some template → IsIndex template.attr_idx

-- No address is in both.
abbrev pub AreApart : Mapping → Mapping → Type 0
AreApart one other = (va : ℕ) → Within va one.region → Outside va other.region

pub AreApart-sym : (one other : Mapping) → AreApart one other → AreApart other one
AreApart-sym one other apart va (lo, hi) = elim (Bool-cases (ltb va one.region.base)) [
  | inl low ↦ inl (ground arith)
  | inr high ↦ elim (Bool-cases (leb (one.region.base + one.region.size) va)) [
    | inl past ↦ inr (ground arith)
    | inr inside ↦ elim (apart va (ground arith, ground arith)) [
      | inl low ↦ absurd (omega arith)
      | inr past ↦ absurd (omega arith)
    ]
  ]
]

abbrev pub Disjoint : List Mapping → Type 0
Disjoint [] = Unit {0}
Disjoint (m ∷ plan) = All (AreApart m) plan × Disjoint plan

overlaps-AreApart :
    (one other : Mapping)
    → IsMapping one
    → IsMapping other
    → overlaps one other ≡ false
    → AreApart one other
overlaps-AreApart one other h k e va (lo, hi) =
    let b = h.bound in
    let c = k.bound in
    elim (Bool-cases (ltb va other.region.base)) [
      | inl low ↦ inl (ground arith)
      | inr high ↦ inr (ground arith)
    ]

overlap_behind-none :
    (one : Mapping) (plan : List Mapping)
    → IsMapping one
    → All IsMapping plan
    → overlap_behind one plan ≡ none
    → All (AreApart one) plan
unfolding overlap_behind
overlap_behind-none one [] h all e = tt
overlap_behind-none one (other ∷ plan) h (k, all) e = elim (Bool-cases (overlaps one other)) [
  | inl yes_so ↦ absurd (ground arith)
  | inr not_so ↦
      (overlaps-AreApart one other h k not_so, overlap_behind-none one plan h all (ground arith))
]

-- A plan that passes the check of `apply` is disjoint.
pub first_overlap-Disjoint :
    (plan : List Mapping) → All IsMapping plan → first_overlap plan ≡ none → Disjoint plan
unfolding first_overlap
first_overlap-Disjoint [] all e = tt
first_overlap-Disjoint (one ∷ plan) (h, all) e = elim (Option-cases (overlap_behind one plan)) [
  | inl clear ↦
      (overlap_behind-none one plan h all clear, first_overlap-Disjoint plan all (ground arith))
  | inr (x, found) ↦ absurd (ground arith)
]
