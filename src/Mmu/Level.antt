-- ===== src/Mmu/Level.antt =====
-- src/arch/aarch64/mmu/level.rs: the three levels of a walk.
use zheos.Common.{ℕ, ◌+◌, ◌-◌, ◌*◌, Option, none, some, Bool, ◌==◌, bit_and, ◌<<<◌, ◌>>>◌, sub64}

pub data Level : Type 0 where
  level1 : Level
  level2 : Level
  level3 : Level

abbrev pub number : Level → ℕ
number level1 = 1
number level2 = 2
number level3 = 3

abbrev pub next : Level → Option Level
next level1 = some level2
next level2 = some level3
next level3 = none

abbrev pub offset : Level → ℕ
offset l = 12 + 9 * (3 - number l)

unfoldable pub slot_of : Level → ℕ → ℕ
slot_of l va = bit_and (va >>> offset l) 0x1ff

unfoldable pub size : Level → ℕ
size l = 1 <<< offset l

unfoldable pub offset_mask : Level → ℕ
unfolding size
offset_mask l = sub64 (size l) 1

unfoldable pub is_aligned : Level → ℕ → Bool
unfolding offset_mask
is_aligned l addr = bit_and addr (offset_mask l) == 0
