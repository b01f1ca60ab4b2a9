-- ===== src/Mmu/Control.antt =====
-- src/arch/aarch64/mmu/init.rs and src/arch/aarch64/mmu/registers.rs: the MMU is turned on. What goes to the
-- processor is a list; the value that a register reads is an argument.
pub mod Bits
use zheos.Common.{ℕ, ◌+◌, ◌-◌, ◌*◌, bit_or, ◌<<<◌, List, [], ◌∷◌}
use zheos.Mmu.Control.Bits

-- One instruction of registers.rs, by what it writes.
pub data Instruction : Type 0 where
  write_sctlr_el1 : ℕ → Instruction
  write_tcr_el1 : ℕ → Instruction
  write_ttbr0_el1 : ℕ → Instruction
  write_mair_el1 : ℕ → Instruction
  data_sync_barrier : Instruction
  invalidate_tlb : Instruction
  wait_for_invalidate : Instruction
  instruction_barrier : Instruction

abbrev pub normal_memory : ℕ
normal_memory = 0xff

abbrev pub device_memory : ℕ
device_memory = 0x00

abbrev pub normal_slot : ℕ
normal_slot = 0

abbrev pub device_slot : ℕ
device_slot = 1

abbrev pub mair_el1 : ℕ
mair_el1 = bit_or (normal_memory <<< (normal_slot * 8)) (device_memory <<< (device_slot * 8))

abbrev pub va_bits : ℕ
va_bits = 39

abbrev pub t0sz : ℕ
t0sz = 64 - va_bits

abbrev pub write_back : ℕ
write_back = 1

abbrev pub inner_shareable : ℕ
inner_shareable = 3

abbrev pub granule_4kib_ttbr0 : ℕ
granule_4kib_ttbr0 = 0

abbrev pub granule_4kib_ttbr1 : ℕ
granule_4kib_ttbr1 = 2

abbrev pub physical_40_bits : ℕ
physical_40_bits = 2

abbrev pub walk_disabled : ℕ
walk_disabled = 1

infixl 40 ◌or◌
abbrev ◌or◌ : ℕ → ℕ → ℕ
a or b = bit_or a b

abbrev pub tcr_el1 : ℕ
tcr_el1 =
    (t0sz <<< Bits.t0sz)
    or (write_back <<< Bits.irgn0)
    or (write_back <<< Bits.orgn0)
    or (inner_shareable <<< Bits.sh0)
    or (granule_4kib_ttbr0 <<< Bits.tg0)
    or (walk_disabled <<< Bits.epd1)
    or (granule_4kib_ttbr1 <<< Bits.tg1)
    or (physical_40_bits <<< Bits.ips)

abbrev pub sctlr_m : ℕ
sctlr_m = 1 <<< 0

abbrev pub sctlr_c : ℕ
sctlr_c = 1 <<< 2

abbrev pub sctlr_i : ℕ
sctlr_i = 1 <<< 12

abbrev pub sctlr_wxn : ℕ
sctlr_wxn = 1 <<< 19

abbrev pub sctlr_el1 : ℕ
sctlr_el1 = sctlr_m or sctlr_c or sctlr_i or sctlr_wxn

-- `init`, with the table's base and what `read_sctlr_el1` reads.
unfoldable pub init : ℕ → ℕ → List Instruction
init t_base read_sctlr_el1 =
    data_sync_barrier
    ∷ invalidate_tlb
    ∷ wait_for_invalidate
    ∷ write_mair_el1 mair_el1
    ∷ write_tcr_el1 tcr_el1
    ∷ write_ttbr0_el1 t_base
    ∷ instruction_barrier
    ∷ write_sctlr_el1 (bit_or read_sctlr_el1 sctlr_el1)
    ∷ instruction_barrier
    ∷ []
