-- ===== src/Mm/Entry.antt =====
-- src/mm/pages.rs, `ArenaIndex`, `Slot` and `Entry`: what the page table says of one page, and the
-- 64-bit word that holds it.
pub mod RoundTrip
use zheos.Common.{ℕ, Bool, true, false, Option, none, some}
use zheos.Common.{ltb, ◌==◌, ◌/=◌, if◌then◌else◌, u8, u16, u32, bit_and, bit_or, ◌<<<◌, ◌>>>◌}

-- `ArenaIndex`, a page's index in the arena, in 19 bits.
abbrev pub ArenaIndex : Type 0
ArenaIndex = ℕ

abbrev pub arena_index_none : ℕ
arena_index_none = 0x7ffff

abbrev pub max_pages : ℕ
max_pages = arena_index_none

unfoldable pub arena_index_to_raw : Option ArenaIndex → ℕ
arena_index_to_raw none = arena_index_none
arena_index_to_raw (some index) = index

unfoldable pub arena_index_from_raw : ℕ → Option ArenaIndex
arena_index_from_raw raw = if raw /= arena_index_none then some raw else none

-- `Slot`, a slot's position in a slab page, in 10 bits.
abbrev pub Slot : Type 0
Slot = ℕ

abbrev pub slot_none : ℕ
slot_none = 0x3ff

unfoldable pub slot_new : ℕ → Option Slot
slot_new index = if ltb index slot_none then some (u16 index) else none

unfoldable pub slot_to_raw : Option Slot → ℕ
slot_to_raw none = slot_none
slot_to_raw (some slot) = slot

unfoldable pub slot_from_raw : ℕ → Option Slot
slot_from_raw raw = if raw /= slot_none then some raw else none

pub record SlabEntry : Type 0 where
  pub class : ℕ
  pub free_head : Option Slot
  pub in_use : ℕ
  pub next_partial : Option ArenaIndex
  pub prev_partial : Option ArenaIndex

pub data Entry : Type 0 where
  buddy : (free : Bool) → (order : ℕ) → Entry
  slab : SlabEntry → Entry

-- `b as u64`.
abbrev pub bit : Bool → ℕ
bit true = 1
bit false = 0

unfoldable pub to_u64 : Entry → ℕ
unfolding slot_to_raw arena_index_to_raw
to_u64 (buddy free order) = bit_or (bit_or 0 (bit free <<< 1)) (bit_and order 0xf <<< 2)
to_u64 (slab s) =
    bit_or
      (bit_or
        (bit_or
          (bit_or (bit_or 1 (bit_and s.class 0xf <<< 1))
            (bit_and (slot_to_raw s.free_head) 0x3ff <<< 5))
          (bit_and s.in_use 0x3ff <<< 15))
        (bit_and (arena_index_to_raw s.next_partial) 0x7ffff <<< 25))
      (bit_and (arena_index_to_raw s.prev_partial) 0x7ffff <<< 44)

unfoldable pub from_u64 : ℕ → Entry
unfolding slot_from_raw arena_index_from_raw
from_u64 val =
    if bit_and val 1 /= 0
    then slab (record {
      class = u8 (bit_and (val >>> 1) 0xf);
      free_head = slot_from_raw (u16 (bit_and (val >>> 5) 0x3ff));
      in_use = u16 (bit_and (val >>> 15) 0x3ff);
      next_partial = arena_index_from_raw (u32 (bit_and (val >>> 25) 0x7ffff));
      prev_partial = arena_index_from_raw (u32 (bit_and (val >>> 44) 0x7ffff));
    })
    else buddy (bit_and val 2 /= 0) (u8 (bit_and (val >>> 2) 0xf))
