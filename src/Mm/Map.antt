-- ===== src/Mm/Map.antt =====
-- src/mm/map.rs: which memory there is, and which parts of it are spoken for.
pub mod Align
pub mod Reserve
mod Tests
use zheos.Common.{ℕ, ◌+◌, ◌-◌, Option, none, some, List}
use zheos.Common.{ltb, if◌then◌else◌, set, take, replicate}
use zheos.Mm.Pfn.{page_size, align_up, align_down}
use zheos.Mm.Region
use zheos.Mm.Region.{Region}
use zheos.Mm.PageRange.{PageRange}
use zheos.Mm.Gaps.{gaps}

abbrev pub max_reserved : ℕ
max_reserved = 16

pub record MemoryMap : Type 0 where
  pub arena : Region
  pub reserved : List Region
  pub len : ℕ

-- `end.checked_sub(base)?` is the test.
unfoldable pub new : Region → Option MemoryMap
new memory =
    let base = align_up memory.base page_size in
    let end = align_down (Region.end memory) page_size in
    if ltb end base
    then none
    else some (record {
      arena = record { base = base; size = end - base };
      reserved = replicate max_reserved Region.empty;
      len = 0;
    })

-- `none` is `Err(Full)`, which leaves the map as it was.
unfoldable pub reserve : MemoryMap → Region → Option MemoryMap
reserve map region =
    if ltb map.len max_reserved
    then some (record map { reserved = set map.reserved map.len region; len = map.len + 1 })
    else none

-- The iterator `reserved()`.
unfoldable pub taken : MemoryMap → List Region
taken map = take map.len map.reserved

unfoldable pub unreserved : MemoryMap → List PageRange
unfolding taken
unreserved map = gaps map.arena (taken map)
