-- ===== src/Mmu/Plan/Boot.antt =====
-- src/arch/aarch64/mmu/mod.rs, `init`: what the tables map when the MMU is turned on.
use zheos.Common.{
  ℕ, List, ◌*◌, ◌/◌, ◌<◌, ◌+◌, ◌^◌, ◌≤◌, ◌≡◌, ap, ◌∙◌, sym, arith, subst, sub64, some, none,
}
use zheos.Mm.Region.{Region}
use zheos.Mm.Gaps.Bytes.{IsFree}
use zheos.Mm.Image
use zheos.Mm.Image.{Symbols}
use zheos.Mmu.Level.{level1, slot_of}
use zheos.Mmu.Descriptor
use zheos.Mmu.Descriptor.{Descriptor, invalid}
use zheos.Mmu.Word.{IsIndex}
use zheos.Mmu.Table
use zheos.Mmu.Table.{Words, Alloc, State, MapError}
use zheos.Mmu.Table.Fresh.{IsNew}
use zheos.Mmu.Table.Linked.{
  add_place, add_place_self, new-IsTree, new-Owns, zero-invalid, slot_small,
}
use zheos.Mmu.Table.Walk.{Place, Places, IsTree, walk, walk-follow, follow-invalid}
use zheos.Mmu.Table.Maps.{IsMapped}
use zheos.Mmu.Table.Identity.{IsRooted, Within}
use zheos.Mmu.Control
use zheos.Mmu.Control.{Instruction}
use zheos.Mmu.Plan.{Mapping, plan_of}
use zheos.Mmu.Plan.Apart.{All, IsMapping}
use zheos.Mmu.Plan.Clear.{regions}
use zheos.Mmu.Plan.Mapped.{IsServed, IsUntouched}

abbrev pub none_placed : Places
none_placed t = none

pub none-IsTree : (words : Words) → IsTree words none_placed
none-IsTree words = record { page = λ t x e. cc; child = λ t l finer va c n k. cc }

abbrev pub root_place : Place
root_place = record { level = level1; prefix = 0 }

-- A new table is the root of a tree that maps nothing.
module _ {H : Type 0} (Given : H → ℕ → Type 0) (s : State H) (t : ℕ) (s' : State H)
    (fresh : IsNew Given none_placed s t s') where
  empty_entry : (va : ℕ) → (Table.get s'.words t (slot_of level1 va)).kind ≡ invalid
  empty_entry va =
      ap (λ d. d.kind) (fresh.empty (slot_of level1 va) (slot_small level1 va)) ∙ zero-invalid

  pub new-IsRooted : IsRooted Given (add_place none_placed t root_place) s' t
  new-IsRooted = record {
    tree = new-IsTree Given none_placed s t s' fresh (none-IsTree s.words) root_place;
    owns = new-Owns Given none_placed s t s' fresh (none-IsTree s.words) root_place;
    root = add_place_self none_placed t root_place;
    full = λ va e kind. let both = sym (empty_entry va) ∙ kind in cc;
  }

  pub new-blank : (va : ℕ) → walk s'.words t va level1 ≡ none
  new-blank va =
      walk-follow s'.words t va level1
      ∙ follow-invalid _ (Table.get s'.words t (slot_of level1 va)) level1 (empty_entry va)

abbrev pub devices_below : Region → Region
devices_below memory = record { base = 0; size = memory.base }

-- The state when the MMU is turned on. What none of the other fields maps is not mapped.
pub record IsProtected {H : Type 0} (image : Symbols) (memory dtb : Region) (sctlr : ℕ)
    (instructions : List Instruction) (s : State H) : Type 0 where
  pub root : ℕ
  pub turned_on : instructions ≡ Control.init root sctlr
  pub served : All (IsServed s root) (plan_of image dtb)
  pub guarded : (va : ℕ) → Within va (Image.stack_guard image) → walk s.words root va level1 ≡ none
  pub filled :
      (va : ℕ)
      → IsFree memory (regions (plan_of image dtb)) (va / 4096)
      → IsMapped Descriptor.normal_block va (walk s.words root va level1)
  pub devices :
      (va : ℕ)
      → va / 4096 * 4096 + 4096 ≤ memory.base
      → IsMapped Descriptor.device_block va (walk s.words root va level1)
  pub rest :
      (va : ℕ)
      → va < 2 ^ 39
      → All (IsUntouched va) (plan_of image dtb)
      → ¬ IsFree memory (regions (plan_of image dtb)) (va / 4096)
      → memory.base < va / 4096 * 4096 + 4096
      → walk s.words root va level1 ≡ none

-- The symbols of the image in the order of the linker script, above the devices.
pub record IsImage (memory : Region) (image : Symbols) : Type 0 where
  pub above : memory.base ≤ image.image_start
  pub exec : image.image_start ≤ image.exec_end
  pub rodata : image.exec_end ≤ image.rodata_end
  pub writable : image.rodata_end ≤ image.stack_guard_start
  pub guard : image.stack_guard_start ≤ image.stack_bottom
  pub stack : image.stack_bottom ≤ image.stack_top
  pub bound : image.stack_top ≤ 2 ^ 39

-- Above `base`, in the address space.
abbrev pub IsAbove : ℕ → Mapping → Type 0
IsAbove base m = base ≤ m.region.base

between-size : (a b : ℕ) → a ≤ b → b ≤ 2 ^ 39 → a + sub64 b a ≡ b
between-size a b le bound = omega arith

with_template :
    (name : _) (region : Region) (d : Descriptor)
    → IsIndex d.attr_idx
    → region.base + region.size ≤ 2 ^ 39
    → IsMapping (record { name = name; region = region; template = some d })
with_template name region d index bound = record {
  bound = bound;
  index = λ e is. let same : d ≡ e = cc in subst (λ x. IsIndex x.attr_idx) same index;
}

pub plan_of-IsMapping :
    (memory : Region) (image : Symbols) (dtb : Region)
    → IsImage memory image
    → dtb.base + dtb.size ≤ 2 ^ 39
    → All IsMapping (plan_of image dtb)
plan_of-IsMapping memory image dtb ok fits = (
  with_template _ (Image.executable image) Descriptor.executable tt
      (omega (arith, ok.exec, ok.rodata, ok.writable, ok.guard, ok.stack, ok.bound)),
  (
    with_template _ (Image.rodata image) Descriptor.read_only tt
        (omega (arith, ok.exec, ok.rodata, ok.writable, ok.guard, ok.stack, ok.bound)),
    (
      with_template _ (Image.writable_data image) Descriptor.writable tt
          (omega (arith, ok.exec, ok.rodata, ok.writable, ok.guard, ok.stack, ok.bound)),
      (
        record {
          bound = omega (arith, ok.exec, ok.rodata, ok.writable, ok.guard, ok.stack, ok.bound);
          index = λ d e. cc;
        },
        (
          with_template _ (Image.stack image) Descriptor.writable tt
              (omega (arith, ok.exec, ok.rodata, ok.writable, ok.guard, ok.stack, ok.bound)),
          (with_template _ dtb Descriptor.read_only tt fits, tt),
        ),
      ),
    ),
  ),
)

pub plan_of-IsAbove :
    (memory : Region) (image : Symbols) (dtb : Region)
    → IsImage memory image
    → memory.base ≤ dtb.base
    → All (IsAbove memory.base) (plan_of image dtb)
plan_of-IsAbove memory image dtb ok dtb_above = (
  omega (arith, ok.above),
  (
    omega (arith, ok.above, ok.exec),
    (
      omega (arith, ok.above, ok.exec, ok.rodata),
      (
        omega (arith, ok.above, ok.exec, ok.rodata, ok.writable),
        (omega (arith, ok.above, ok.exec, ok.rodata, ok.writable, ok.guard), (dtb_above, tt)),
      ),
    ),
  ),
)
