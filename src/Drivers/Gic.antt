-- ===== src/Drivers/Gic.antt =====
-- src/drivers/gic.rs: the interrupt controller. Writes go to a list, oldest first; what the acknowledge
-- register reads is an argument.
use zheos.Common.{ℕ, ◌*◌, ◌/◌, ◌%◌, Bool, Option, none, some, List, [], ◌∷◌, ◌++◌}
use zheos.Common.{leb, ◌==◌, if◌then◌else◌, add64, u32, bit_and, ◌<<<◌}

-- `mmio::write_32` and `mmio::write_byte`.
pub data Write : Type 0 where
  write_32 : (address value : ℕ) → Write
  write_byte : (address value : ℕ) → Write

-- The addresses of the two parts and what was written.
pub record Gic : Type 0 where
  pub distributor : ℕ
  pub cpu : ℕ
  pub writes : List Write

abbrev pub start_state : Gic
start_state = record { distributor = 0; cpu = 0; writes = [] }

abbrev pub write : Gic → List Write → Gic
write g ws = record g { writes = g.writes ++ ws }

abbrev pub isenabler : ℕ
isenabler = 0x100

abbrev pub itargetsr : ℕ
itargetsr = 0x800

abbrev pub first_spi : ℕ
first_spi = 32

abbrev pub target_cpu0 : ℕ
target_cpu0 = 1

abbrev pub pmr : ℕ
pmr = 0x4

abbrev pub irq_mask : ℕ
irq_mask = 0x3ff

abbrev pub eoir : ℕ
eoir = 0x10

abbrev pub spurious_interrupt_id : ℕ
spurious_interrupt_id = 1023

-- `distributor::init` and `cpu::init`.
unfoldable pub init_distributor : Gic → ℕ → Gic
init_distributor g base = write (record g { distributor = base }) (write_32 (add64 base 0) 1 ∷ [])

unfoldable pub init_cpu : Gic → ℕ → Gic
init_cpu g base =
    write (record g { cpu = base })
      (write_32 (add64 base 0) 1 ∷ write_32 (add64 base pmr) 0xff ∷ [])

unfoldable pub init : Gic → ℕ → ℕ → Gic
init g distributor_base cpu_base = init_cpu (init_distributor g distributor_base) cpu_base

unfoldable pub enable : Gic → ℕ → Gic
enable g intid =
    let block = intid / 32 in
    let bit = intid % 32 in
    let enable_addr = add64 (add64 g.distributor isenabler) (block * 4) in
    write g (
      write_32 enable_addr (u32 (1 <<< bit))
      ∷ (if leb first_spi intid
          then write_byte (add64 (add64 g.distributor itargetsr) intid) target_cpu0 ∷ []
          else []))

pub record Interrupt : Type 0 where
  pub val : ℕ

abbrev pub intid : Interrupt → ℕ
intid i = bit_and i.val irq_mask

abbrev pub is_spurious : Interrupt → Bool
is_spurious i = intid i == spurious_interrupt_id

abbrev pub end_of : Gic → Interrupt → Gic
end_of g i = write g (write_32 (add64 g.cpu eoir) i.val ∷ [])

-- `acknowledge`, with what the acknowledge register reads.
unfoldable pub acknowledge : ℕ → Option Interrupt
acknowledge iar =
    let interrupt : Interrupt = record { val = iar } in
    if is_spurious interrupt then none else some interrupt
