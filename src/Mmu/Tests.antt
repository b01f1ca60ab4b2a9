-- ===== src/Mmu/Tests.antt =====
-- src/arch/aarch64/mmu: the descriptors of the source, and the theorems at concrete values.
use zheos.Common.{ℕ, some, none, subst, List, [], ◌∷◌, ◌≡◌, ◌^◌, ◌<◌, refl, arith}
use zheos.Mm.Region.{Region}
use zheos.Mmu.Level.{slot_of, size, offset_mask, is_aligned}
use zheos.Mmu.Descriptor.{
  from_u64, to_u64, executable, writable, normal_block, kind_from_u64, attr_from_u64,
  access_from_u64, sh_from_u64,
}
use zheos.Mmu.RoundTrip.{from_u64-to_u64_descriptor}
use zheos.Mmu.Sample.{bump, GivenBelow, bump-IsAllocator, blank, blank-IsRooted, root, root_only}
use zheos.Mmu.Table.{
  Words, State, Result, done, failed, stuck, get, set, clear, new, child_table, map_leaf, slot_end,
  map_chunk, map_from, map_range, identity_map, translate_slot, translate_rounds, translate_at,
  translate,
}
use zheos.Mm.Gaps.{gaps}
use zheos.Mm.PageRange
use zheos.Mmu.Word.{IsIndex}
use zheos.Mmu.Plan.{
  Mapping, Applied, applied, refused, apply, first_overlap, overlap_behind, map_plan, map_gaps,
  plan_of, init,
}
use zheos.Mmu.Plan.Ends.{Ends as PlanEnds}
use zheos.Mmu.Plan.Apart.{All, IsMapping}
use zheos.Mm.Image.{Symbols}
use zheos.Mmu.Plan.Boot.{IsImage, IsProtected}
use zheos.Mmu.Plan.Cause.{BootFailure}
use zheos.Mmu.Plan.Protected.{init-IsProtected}
use zheos.Mmu.Plan.Promise.{IsApplied, Refusal}
use zheos.Mmu.Plan.Apply.{apply-IsApplied}
use zheos.Mmu.Table.Ends.{Ends, IsDry}
use zheos.Mmu.Table.Identity.{Reason, Within, Outside, identity_map-translate}

from_u64-to_u64_descriptor_example : from_u64 (to_u64 executable) ≡ executable
from_u64-to_u64_descriptor_example =
    from_u64-to_u64_descriptor executable (record { index = tt; page = refl; width = omega arith })

-- The state behind a result.
abbrev state : Result (State ℕ) (Unit {0}) → State ℕ
state (done u s) = s
state (failed e s) = s
state stuck = blank

-- Two pages and 2 MiB that begin in the middle of a 2 MiB block.
abbrev two_sizes : Region
two_sizes = record { base = 0x401fe000; size = 0x202000 }

abbrev mapped : State ℕ
mapped = state (identity_map bump 20 blank root two_sizes writable)

last_byte : translate mapped.words root 0x403fffff ≡ some 0x403fffff
unfolding identity_map map_range map_from map_chunk map_leaf child_table new clear set get to_u64
    from_u64 slot_of is_aligned slot_end size translate translate_at translate_slot kind_from_u64
    attr_from_u64 access_from_u64 sh_from_u64 offset_mask translate_rounds
last_byte = refl

identity_map-translate_example :
    Ends
      (λ u s'.
        ((va : ℕ) → Within va two_sizes → translate s'.words root va ≡ some va)
        × ((va : ℕ)
            → va < 2 ^ 39
            → Outside va two_sizes
            → translate s'.words root va ≡ translate blank.words root va))
      (Reason bump blank.words root two_sizes)
      (identity_map bump 1542 blank root two_sizes writable)
identity_map-translate_example =
    identity_map-translate bump GivenBelow bump-IsAllocator writable tt root_only blank root
      blank-IsRooted two_sizes (omega arith) 1542 (omega arith)

abbrev text : Mapping
text = record {
  name = "text and vectors";
  region = record { base = 0x40080000; size = 0x2000 };
  template = some executable;
}

abbrev guard : Mapping
guard = record {
  name = "stack guard";
  region = record { base = 0x40082000; size = 0x1000 };
  template = none;
}

abbrev stack : Mapping
stack = record {
  name = "stack";
  region = record { base = 0x40083000; size = 0x1000 };
  template = some writable;
}

abbrev small_plan : List Mapping
small_plan = text ∷ guard ∷ stack ∷ []

small_plan-IsMapping : All IsMapping small_plan
small_plan-IsMapping = (
  record {
    bound = omega arith;
    index = λ d e. let one : executable ≡ d = cc in subst (λ x. IsIndex x.attr_idx) one tt;
  },
  (
    record { bound = omega arith; index = λ d e. cc },
    (
      record {
        bound = omega arith;
        index = λ d e. let one : writable ≡ d = cc in subst (λ x. IsIndex x.attr_idx) one tt;
      },
      tt,
    ),
  ),
)

abbrev small_arena : Region
small_arena = record { base = 0x4007f000; size = 0x6000 }

apply-IsApplied_example :
    PlanEnds
      (IsApplied GivenBelow small_arena small_plan normal_block blank root)
      (λ z. Refusal (IsDry bump z) blank.words root small_arena small_plan normal_block)
      (apply bump 1542 blank root small_arena small_plan normal_block)
apply-IsApplied_example =
    apply-IsApplied bump GivenBelow bump-IsAllocator 1542 (omega arith) root root_only blank
      blank-IsRooted small_arena (omega arith) small_plan small_plan-IsMapping normal_block tt

abbrev words_of : Applied (State ℕ) (Unit {0}) → Words
words_of (applied u s) = s.words
words_of (refused e s) = blank.words
words_of Applied.stuck = blank.words

-- The guard page is not mapped, and the page behind it is.
abbrev after : Words
after = words_of (apply bump 40 blank root small_arena small_plan normal_block)

guard_unmapped :
    (translate after root 0x40082fff ≡ none) × (translate after root 0x40083000 ≡ some 0x40083000)
unfolding apply first_overlap overlap_behind map_plan map_gaps gaps identity_map map_range map_from
    map_chunk map_leaf child_table new clear set get to_u64 from_u64 slot_of is_aligned slot_end
    size translate translate_at translate_slot kind_from_u64 attr_from_u64 access_from_u64
    sh_from_u64 offset_mask translate_rounds PageRange.new
guard_unmapped = (refl, refl)

abbrev memory : Region
memory = record { base = 0x40000000; size = 0x8000000 }

abbrev device_tree : Region
device_tree = record { base = 0x48000000; size = 0x10000 }

abbrev kernel_image : Symbols
kernel_image = record {
  image_start = 0x40080000;
  exec_end = 0x40090000;
  rodata_end = 0x40094000;
  stack_guard_start = 0x400a0000;
  stack_bottom = 0x400a1000;
  stack_top = 0x400a5000;
}

kernel_image-IsImage : IsImage memory kernel_image
kernel_image-IsImage = record {
  above = omega arith;
  exec = omega arith;
  rodata = omega arith;
  writable = omega arith;
  guard = omega arith;
  stack = omega arith;
  bound = omega arith;
}

init-IsProtected_example :
    PlanEnds
      (IsProtected kernel_image memory device_tree 0x30d00800)
      (λ z. BootFailure (IsDry bump z) (plan_of kernel_image device_tree))
      (init bump 1542 blank kernel_image memory device_tree 0x30d00800)
init-IsProtected_example =
    init-IsProtected bump GivenBelow bump-IsAllocator 1542 (omega arith) blank kernel_image memory
      device_tree 0x30d00800 kernel_image-IsImage (omega arith) (omega arith) (omega arith)
