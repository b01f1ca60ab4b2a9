-- ===== src/Mmu/Table.antt =====
-- src/arch/aarch64/mmu/mod.rs: translation tables. Memory is a function from addresses to 64-bit words,
-- and a table is the address that it begins at. The heap is a parameter, by what it answers to
-- `alloc_layout` and what it leaves in memory.
pub mod Slots
pub mod Walk
pub mod Grows
pub mod Leaf
pub mod Ends
pub mod Full
pub mod Fresh
pub mod Linked
pub mod Child
pub mod Chunk
pub mod Maps
pub mod Slot
pub mod Deeper
pub mod Range
pub mod Identity
use zheos.Common.{
  ℕ, zero, suc, ◌+◌, ◌*◌, min, Option, none, some, Bool, true, false, ◌&&◌, ◌==◌, if◌then◌else◌,
  ltb, is_some, bit_and, bit_or, add64, sub64, not64, List, [], ◌∷◌,
}
use zheos.Mm.Layout.{Layout}
use zheos.Mm.Region
use zheos.Mm.Region.{Region}
use zheos.Mmu.Level.{
  Level, level1, level2, level3, number, next, slot_of, size, offset_mask, is_aligned,
}
use zheos.Mmu.Descriptor.{
  Descriptor, Kind, invalid, block, table, kind_from_level, from_u64, to_u64,
}

abbrev pub slots : ℕ
slots = 512

abbrev pub slot_mask : ℕ
slot_mask = sub64 slots 1

abbrev pub Words : Type 0
Words = ℕ → ℕ

abbrev pub page_layout : Layout
page_layout = record { size = 4096; align = 4096 }

-- The heap's state and memory go in, the address or `none` and both again come out.
abbrev pub Alloc : Type 0 → Type 0
Alloc H = Layout → H → Words → Option ℕ × H × Words

pub record State (H : Type 0) : Type 0 where
  pub heap : H
  pub words : Words

pub data MapError : Type 0 where
  out_of_memory : MapError
  unaligned : ℕ → MapError
  block_in_the_way : ℕ → Level → MapError
  table_in_the_way : ℕ → Level → MapError

-- A result of the source with the state behind it, or no result within the fuel.
pub data Result (S A : Type 0) : Type 0 where
  done : A → S → Result S A
  failed : MapError → S → Result S A
  stuck : Result S A

abbrev pub bind : {S A B : Type 0} → Result S A → (A → S → Result S B) → Result S B
bind (done a s) f = f a s
bind (failed e s) f = failed e s
bind stuck f = stuck

abbrev pub zero_descriptor : Descriptor
zero_descriptor = from_u64 0

abbrev pub slot_address : ℕ → ℕ → ℕ
slot_address t slot = t + 8 * bit_and slot slot_mask

abbrev pub write_volatile : Words → ℕ → ℕ → Words
write_volatile words a v b = if a == b then v else words b

unfoldable pub set : Words → ℕ → ℕ → Descriptor → Words
set words t slot value = write_volatile words (slot_address t slot) (to_u64 value)

unfoldable pub get : Words → ℕ → ℕ → Descriptor
get words t slot = from_u64 (words (slot_address t slot))

-- `for slot in 0..n`
unfoldable pub clear : ℕ → Words → ℕ → Words
clear zero words t = words
clear (suc n) words t = set (clear n words t) t n zero_descriptor

-- `NonNull::new`
abbrev pub from_base : ℕ → Option ℕ
from_base t = if t == 0 then none else some t

abbrev pub link : ℕ → Descriptor
link child = record zero_descriptor { kind = table; address = child }

abbrev pub is_table : Kind → Bool
is_table table = true
is_table _ = false

-- Where the slot of an address ends.
unfoldable pub slot_end : Level → ℕ → ℕ
slot_end level addr = add64 (bit_and addr (not64 (offset_mask level))) (size level)

module _ {H : Type 0} (alloc_layout : Alloc H) where
  unfoldable pub new : State H → Result (State H) ℕ
  new s =
      let (answer, heap, words) = alloc_layout page_layout s.heap s.words in
      let s' : State H = record { heap = heap; words = words } in
      elim answer [
        | none ↦ failed out_of_memory s'
        | some address ↦ elim (from_base address) [
          | none ↦ failed out_of_memory s'
          | some t ↦ done t (record s' { words = clear slots words t })
        ]
      ]

  unfoldable pub child_table : State H → ℕ → ℕ → Level → Result (State H) ℕ
  child_table s t va level =
      let slot = slot_of level va in
      let descriptor = get s.words t slot in
      elim descriptor.kind [
        | table ↦ elim (from_base descriptor.address) [
          | none ↦ failed out_of_memory s
          | some child ↦ done child s
        ]
        | invalid ↦
            bind (new s)
              λ child s'. done child (record s' { words = set s'.words t slot (link child) })
        | block ↦ failed (block_in_the_way va level) s
      ]

  -- A chunk that fills its slot.
  unfoldable pub map_leaf : State H → ℕ → ℕ → Descriptor → Level → Result (State H) (Unit {0})
  map_leaf s t addr template level =
      let desc = get s.words t (slot_of level addr) in
      if is_some (next level) && is_table desc.kind
      then failed (table_in_the_way addr level) s
      else done tt (record s {
        words =
            set s.words t (slot_of level addr)
              (record template { kind = kind_from_level level; address = addr });
      })

  -- One pass of the loop of `map_range`, which maps the chunk from `addr` to `chunk_end`; `deeper` is the
  -- call for the level below, from the base of its region to the end.
  unfoldable pub map_chunk :
      (State H → ℕ → ℕ → ℕ → Descriptor → Level → Result (State H) (Unit {0}))
      → State H
      → ℕ
      → ℕ
      → ℕ
      → Descriptor
      → Level
      → Result (State H) (Unit {0})
  map_chunk deeper s t addr chunk_end template level =
      if is_aligned level addr && chunk_end == slot_end level addr
      then map_leaf s t addr template level
      else elim (next level) [
        | none ↦ failed (unaligned addr) s
        | some finer ↦ bind (child_table s t addr level) λ child s'.
            let region : Region = record { base = addr; size = sub64 chunk_end addr } in
            deeper s' child region.base (Region.end region) template finer
      ]

  -- The loop of `map_range` from `addr` to the end of the region.
  unfoldable pub map_from :
      ℕ → State H → ℕ → ℕ → ℕ → Descriptor → Level → Result (State H) (Unit {0})
  map_from zero s t addr stop template level = stuck
  map_from (suc fuel) s t addr stop template level = elim (ltb addr stop) [
    | false ↦ done tt s
    | true ↦
        let chunk_end = min (slot_end level addr) stop in
        bind (map_chunk (map_from fuel) s t addr chunk_end template level)
          λ _ s'. map_from fuel s' t chunk_end stop template level
  ]

  unfoldable pub map_range :
      ℕ → State H → ℕ → Region → Descriptor → Level → Result (State H) (Unit {0})
  unfolding map_from
  map_range fuel s t region template level =
      map_from fuel s t region.base (Region.end region) template level

  unfoldable pub identity_map : ℕ → State H → ℕ → Region → Descriptor → Result (State H) (Unit {0})
  identity_map fuel s t region template = map_range fuel s t region template level1

-- What a walk does at one slot; `deeper` is the call for the table below.
unfoldable pub translate_slot :
    (ℕ → Level → Option (ℕ × Level)) → Words → ℕ → ℕ → Level → Option (ℕ × Level)
translate_slot deeper words t va level =
    let descriptor = get words t (slot_of level va) in
    let offset = bit_and va (offset_mask level) in
    elim descriptor.kind [
      | invalid ↦ none
      | block ↦ some (bit_or descriptor.address offset, level)
      | table ↦ elim (next level) [
        | none ↦ some (bit_or descriptor.address offset, level)
        | some finer ↦ elim (from_base descriptor.address) [
          | none ↦ none
          | some child ↦ deeper child finer
        ]
      ]
    ]

-- A walk passes at most the levels that are left.
abbrev pub levels_left : Level → ℕ
levels_left level1 = 3
levels_left level2 = 2
levels_left level3 = 1

unfoldable pub translate_rounds : ℕ → Words → ℕ → ℕ → Level → Option (ℕ × Level)
translate_rounds zero words t va level = none
translate_rounds (suc n) words t va level =
    translate_slot (λ child finer. translate_rounds n words child va finer) words t va level

unfoldable pub translate_at : Words → ℕ → ℕ → Level → Option (ℕ × Level)
unfolding translate_rounds
translate_at words t va level = translate_rounds (levels_left level) words t va level

unfoldable pub translate_with_level : Words → ℕ → ℕ → Option (ℕ × Level)
translate_with_level words t va = translate_at words t va level1

unfoldable pub translate : Words → ℕ → ℕ → Option ℕ
translate words t va = elim (translate_at words t va level1) [
  | none ↦ none
  | some found ↦ some found.0
]
