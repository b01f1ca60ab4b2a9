-- ===== src/Mmu/Table/Identity.antt =====
-- src/arch/aarch64/mmu/mod.rs, `identity_map` and `translate`: what is mapped is translated to itself.
use zheos.Common.{
  ℕ, ◌+◌, ◌*◌, ◌/◌, ◌%◌, ◌^◌, ◌≤◌, ◌<◌, ◌≡◌, ◌≢◌, ◌⊎◌, ap, ◌∙◌, sym, subst, arith, Option, some,
  none, bit_and, bit_or,
}
use zheos.Common.Bits.{bit_and-mask, bit_or-low}
use zheos.Mm.Region
use zheos.Mm.Region.{Region}
use zheos.Mmu.Level.{Level, level1, level2, level3, size, offset_mask}
use zheos.Mmu.Descriptor.{Descriptor}
use zheos.Mmu.Word.{IsIndex}
use zheos.Mmu.Table.{
  Words, Alloc, State, MapError, out_of_memory, unaligned, block_in_the_way, table_in_the_way,
  identity_map, map_range, map_from, translate,
}
use zheos.Mmu.Table.Walk.{Covers, Places, IsTree, Leaf, walk, landing, translate_at-landing}
use zheos.Mmu.Table.Full.{Full}
use zheos.Mmu.Table.Ends.{Ends, Ends-weaken, IsAllocator, IsDry, Owns, Explained}
use zheos.Mmu.Table.Maps.{Maps, IsMapped}
use zheos.Mmu.Table.Range.{map_from-Maps}

-- The table at the root of the tree.
abbrev pub IsRoot : Places → ℕ → Type 0
IsRoot places t = places t ≡ some (record { level = level1; prefix = 0 })

abbrev pub found_at : Option (ℕ × Level) → Option ℕ
found_at none = none
found_at (some found) = some found.0

-- Below the base of a slot there is room for the offset.
base-offset :
    (at : Level) (va : ℕ) → bit_or (va / size at * size at) (bit_and va (offset_mask at)) ≡ va
unfolding size offset_mask
base-offset level1 va =
    ap (bit_or (va / 2 ^ 30 * 2 ^ 30)) (bit_and-mask 30 va)
    ∙ bit_or-low 30 (va % 2 ^ 30) (va / 2 ^ 30) (omega arith)
    ∙ omega arith
base-offset level2 va =
    ap (bit_or (va / 2 ^ 21 * 2 ^ 21)) (bit_and-mask 21 va)
    ∙ bit_or-low 21 (va % 2 ^ 21) (va / 2 ^ 21) (omega arith)
    ∙ omega arith
base-offset level3 va =
    ap (bit_or (va / 2 ^ 12 * 2 ^ 12)) (bit_and-mask 12 va)
    ∙ bit_or-low 12 (va % 2 ^ 12) (va / 2 ^ 12) (omega arith)
    ∙ omega arith

translate-walk :
    (words : ℕ → ℕ) (t va : ℕ)
    → translate words t va ≡ found_at (landing va (walk words t va level1))
unfolding translate
translate-walk words t va = ap found_at (translate_at-landing words t va level1)

IsMapped-landing :
    (template : Descriptor) (va : ℕ) (x : Leaf)
    → IsMapped template va x
    → found_at (landing va x) ≡ some va
IsMapped-landing template va x (at, e) = rw e (ap some (base-offset at va))

-- The addresses of a region, for one that does not wrap.
abbrev pub Within : ℕ → Region → Type 0
Within va region = (region.base ≤ va) × (va < region.base + region.size)

abbrev pub Outside : ℕ → Region → Type 0
Outside va region = (va < region.base) ⊎ (region.base + region.size ≤ va)

-- A tree of tables in pages of the heap, with its root; no table below the root is empty.
pub record IsRooted {H : Type 0} (Given : H → ℕ → Type 0) (places : Places) (s : State H) (t : ℕ)
    : Type 0 where
  pub tree : IsTree s.words places
  pub owns : Owns Given s.heap places
  pub root : IsRoot places t
  pub full : Full s.words level1 t 0

pub IsRoot-Covers :
    (places : Places) (t va : ℕ) → IsRoot places t → va < 2 ^ 39 → Covers places t level1 va
IsRoot-Covers places t va root low =
    let prefix : 0 ≡ va / 2 ^ 39 = omega arith in
    root ∙ ap (λ k. some (record { level = level1; prefix = k })) prefix

-- Why a region is not mapped, by what was translated before.
abbrev pub Reason : {H : Type 0} → Alloc H → Words → ℕ → Region → State H → MapError → Type 0
Reason alloc_layout words t region z out_of_memory = IsDry alloc_layout z
Reason alloc_layout words t region z (unaligned a) =
    (region.base % 4096 ≢ 0) ⊎ ((region.base + region.size) % 4096 ≢ 0)
Reason alloc_layout words t region z (block_in_the_way a at) =
    (va : ℕ) × Within va region × (translate words t va ≢ none)
Reason alloc_layout words t region z (table_in_the_way a at) =
    (va : ℕ) × Within va region × (translate words t va ≢ none)

found-translate :
    (words : Words) (t va : ℕ) (d : Descriptor) (at : Level)
    → walk words t va level1 ≡ some (d, at)
    → translate words t va ≢ none
found-translate words t va d at e n =
    let both : some (bit_or d.address (bit_and va (offset_mask at))) ≡ none =
      ap (λ x. found_at (landing va x)) (sym e) ∙ sym (translate-walk words t va) ∙ n in
    cc

Explained-Reason :
    {H : Type 0} (alloc_layout : Alloc H) (words : Words) (t : ℕ) (region : Region) (z : State H)
    (e : MapError)
    → Explained (IsDry alloc_layout z) words t level1 region.base (region.base + region.size) e
    → Reason alloc_layout words t region z e
Explained-Reason alloc_layout words t region z out_of_memory x = x
Explained-Reason alloc_layout words t region z (unaligned a) x = x
Explained-Reason alloc_layout words t region z (block_in_the_way a at) (d, lo, hi, found) =
    (a, (lo, hi), found-translate words t a d at found)
Explained-Reason alloc_layout words t region z (table_in_the_way a at)
      (va, lo, hi, (d, leaf_at, found)) =
    (va, (lo, hi), found-translate words t va d leaf_at found)

module _ {H : Type 0} (alloc_layout : Alloc H) (Given : H → ℕ → Type 0)
    (lawful : IsAllocator alloc_layout Given) (template : Descriptor)
    (index : IsIndex template.attr_idx) (places : Places) (s : State H) (t : ℕ)
    (rooted : IsRooted Given places s t) (region : Region)
    (bound : region.base + region.size ≤ 2 ^ 39) (fuel : ℕ) (enough : 1542 ≤ fuel) where
  pub identity_map-Maps :
      Ends
        (Maps Given template places s t level1 region.base (region.base + region.size))
        (λ z.
          Explained (IsDry alloc_layout z) s.words t level1 region.base (region.base + region.size))
        (identity_map alloc_layout fuel s t region template)
  unfolding identity_map map_range size
  identity_map-Maps =
      let end : region.base + region.size ≡ Region.end region = omega arith in
      subst
        (λ e.
          Ends (Maps Given template places s t level1 region.base (region.base + region.size))
            (λ z.
              Explained (IsDry alloc_layout z) s.words t level1 region.base
                (region.base + region.size))
            (map_from alloc_layout fuel s t region.base e template level1))
        end
        (map_from-Maps alloc_layout Given lawful template index fuel places s t level1 region.base
          (region.base + region.size) 0 (λ h. omega arith) rooted.full rooted.tree rooted.owns
          (record {
            covers = λ h. IsRoot-Covers places t region.base rooted.root (omega arith);
            within = λ h. omega arith;
          })
          bound (record { some_left = omega arith; rounds = λ h. omega arith }))

  -- `identity_map` under a root table, for a region of the 39-bit address space and with a heap that
  -- keeps what it gave: it ends in 1542 passes, and either every address of the region is translated to
  -- itself and any other as before, or an end of the region is not at a page, or an address of the region was
  -- mapped before, or the heap has no page for a
  -- table when it is asked for the last time.
  pub identity_map-translate :
      Ends
        (λ u s'.
          ((va : ℕ) → Within va region → translate s'.words t va ≡ some va)
          × ((va : ℕ)
              → va < 2 ^ 39
              → Outside va region
              → translate s'.words t va ≡ translate s.words t va))
        (Reason alloc_layout s.words t region)
        (identity_map alloc_layout fuel s t region template)
  identity_map-translate =
      Ends-weaken (Maps Given template places s t level1 region.base (region.base + region.size)) _
        (λ z.
          Explained (IsDry alloc_layout z) s.words t level1 region.base (region.base + region.size))
        (Reason alloc_layout s.words t region) (identity_map alloc_layout fuel s t region template)
        identity_map-Maps
        (λ u s' maps. (
          λ va inside.
              translate-walk s'.words t va
              ∙ IsMapped-landing template va (walk s'.words t va level1)
                  (maps.mapped va inside.0 inside.1),
          λ va low outside.
              translate-walk s'.words t va
              ∙ ap (λ x. found_at (landing va x))
                  (maps.grows.outside va outside t level1
                    (IsRoot-Covers places t va rooted.root low))
              ∙ sym (translate-walk s.words t va),
        ))
        (Explained-Reason alloc_layout s.words t region)
