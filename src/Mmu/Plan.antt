-- ===== src/Mmu/Plan.antt =====
-- src/arch/aarch64/mmu/policy.rs, and `apply` and `init` of src/arch/aarch64/mmu/mod.rs: a plan of named
-- regions with permissions is checked for overlaps and mapped, and then the rest of the arena.
pub mod Apart
pub mod Ends
pub mod Mapped
pub mod Loop
pub mod Gap
pub mod Clear
pub mod Clash
pub mod Promise
pub mod Apply
pub mod Boot
pub mod Cause
pub mod Protected
use Prim.Native.String.{String}
use zheos.Common.{ℕ, Option, none, some, List, [], ◌∷◌, map, Bool, true, false, ◌&&◌, ltb}
use zheos.Mm.Region
use zheos.Mm.Region.{Region}
use zheos.Mm.PageRange
use zheos.Mm.PageRange.{PageRange}
use zheos.Mm.Gaps.{gaps}
use zheos.Mm.Image
use zheos.Mm.Image.{Symbols}
use zheos.Mmu.Descriptor
use zheos.Mmu.Descriptor.{Descriptor}
use zheos.Mmu.Table.{Alloc, State, Result, MapError, identity_map}
use zheos.Mmu.Table
use zheos.Mmu.Control
use zheos.Mmu.Control.{Instruction}

pub record Mapping : Type 0 where
  pub name : String
  pub region : Region
  pub template : Option Descriptor

pub data PlanError : Type 0 where
  no_table : PlanError
  failed : String → MapError → PlanError
  overlap : String → String → PlanError

-- A result of `apply` or of `init` with the state behind it, or none within the fuel.
pub data Applied (S A : Type 0) : Type 0 where
  applied : A → S → Applied S A
  refused : PlanError → S → Applied S A
  stuck : Applied S A

abbrev pub bind : {S A B : Type 0} → Applied S A → (A → S → Applied S B) → Applied S B
bind (applied a s) f = f a s
bind (refused e s) f = refused e s
bind stuck f = stuck

-- `map_err` with the name of a region.
abbrev pub named : {S A : Type 0} → String → Result S A → Applied S A
named name (Table.done a s) = applied a s
named name (Table.failed e s) = refused (failed name e) s
named name Table.stuck = stuck

abbrev pub overlaps : Mapping → Mapping → Bool
overlaps one other =
    ltb one.region.base (Region.end other.region) && ltb other.region.base (Region.end one.region)

-- The loop over the mappings behind `one`.
unfoldable pub overlap_behind : Mapping → List Mapping → Option PlanError
overlap_behind one [] = none
overlap_behind one (other ∷ plan) = elim (overlaps one other) [
  | true ↦ some (overlap one.name other.name)
  | false ↦ overlap_behind one plan
]

unfoldable pub first_overlap : List Mapping → Option PlanError
unfolding overlap_behind
first_overlap [] = none
first_overlap (one ∷ plan) = elim (overlap_behind one plan) [
  | some e ↦ some e
  | none ↦ first_overlap plan
]

abbrev pub plan_of : Symbols → Region → List Mapping
plan_of image dtb =
    record {
      name = "text and vectors";
      region = Image.executable image;
      template = some Descriptor.executable;
    }
    ∷ record { name = "rodata"; region = Image.rodata image; template = some Descriptor.read_only }
    ∷ record {
      name = "data and bss";
      region = Image.writable_data image;
      template = some Descriptor.writable;
    }
    ∷ record { name = "stack guard"; region = Image.stack_guard image; template = none }
    ∷ record { name = "stack"; region = Image.stack image; template = some Descriptor.writable }
    ∷ record { name = "device tree"; region = dtb; template = some Descriptor.read_only }
    ∷ []

-- `ok_or` of `Table::new`.
abbrev pub with_table : {S A : Type 0} → Result S A → Applied S A
with_table (Table.done a s) = applied a s
with_table (Table.failed e s) = refused no_table s
with_table Table.stuck = stuck

module _ {H : Type 0} (alloc_layout : Alloc H) (fuel : ℕ) where
  -- The mappings of the plan that have a template.
  unfoldable pub map_plan : State H → ℕ → List Mapping → Applied (State H) (Unit {0})
  map_plan s t [] = applied tt s
  map_plan s t (m ∷ plan) = elim m.template [
    | none ↦ map_plan s t plan
    | some template ↦
        bind (named m.name (identity_map alloc_layout fuel s t m.region template))
          λ _ s'. map_plan s' t plan
  ]

  unfoldable pub map_gaps : State H → ℕ → List PageRange → Descriptor → Applied (State H) (Unit {0})
  map_gaps s t [] fill = applied tt s
  map_gaps s t (gap ∷ rest) fill =
      bind
        (named "unclaimed memory" (identity_map alloc_layout fuel s t (PageRange.region gap) fill))
        λ _ s'. map_gaps s' t rest fill

  unfoldable pub apply :
      State H → ℕ → Region → List Mapping → Descriptor → Applied (State H) (Unit {0})
  unfolding first_overlap map_plan map_gaps
  apply s t arena plan fill = elim (first_overlap plan) [
    | some e ↦ refused e s
    | none ↦
        bind (map_plan s t plan) λ _ s'. map_gaps s' t (gaps arena (map (λ m. m.region) plan)) fill
  ]

  -- `init`, with the symbols of the image and what `read_sctlr_el1` reads.
  unfoldable pub init :
      State H → Symbols → Region → Region → ℕ → Applied (State H) (List Instruction)
  unfolding apply Control.init
  init s image memory dtb sctlr =
      let devices : Region = record { base = 0; size = memory.base } in
      bind (with_table (Table.new alloc_layout s)) λ t s1.
        bind (apply s1 t memory (plan_of image dtb) Descriptor.normal_block) λ _ s2.
          bind (apply s2 t devices [] Descriptor.device_block)
            λ _ s3. applied (Control.init t sctlr) s3
