-- ===== src/Mmu/Walk.antt =====
-- src/arch/aarch64/mmu/level.rs: the slots of a walk and the offset in a page make up an address.
use zheos.Common.{ℕ, ◌+◌, ◌*◌, ◌%◌, ◌^◌, ◌<◌, ◌≡◌, ◌↔◌, true, arith, bit_and, ◌>>>◌}
use zheos.Common.Bits.{bit_and-mask}
use zheos.Mmu.Level.{Level, level1, level2, level3, slot_of, size, offset_mask, is_aligned}

-- An address below 2 ^ 39 is the sum of what its three slots begin at and its place in the page: the
-- walk loses nothing of it.
pub slots-address :
    (va : ℕ)
    → va < 2 ^ 39
    → slot_of level1 va * size level1
        + slot_of level2 va * size level2
        + slot_of level3 va * size level3
        + bit_and va (offset_mask level3)
      ≡ va
unfolding slot_of size offset_mask
slots-address va h = omega (
  arith,
  bit_and-mask 9 (va >>> 30),
  bit_and-mask 9 (va >>> 21),
  bit_and-mask 9 (va >>> 12),
  bit_and-mask 12 va,
)

-- `is_aligned` holds exactly for the multiples of the size of a slot.
pub is_aligned-multiple : (l : Level) (addr : ℕ) → (is_aligned l addr ≡ true) ↔ (addr % size l ≡ 0)
unfolding is_aligned offset_mask size
is_aligned-multiple level1 addr = ground (arith, bit_and-mask 30 addr)
is_aligned-multiple level2 addr = ground (arith, bit_and-mask 21 addr)
is_aligned-multiple level3 addr = ground (arith, bit_and-mask 12 addr)
