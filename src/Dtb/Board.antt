-- ===== src/Dtb/Board.antt =====
-- src/platform/board.rs: what the kernel needs to know of the machine, looked up in the device tree.
use zheos.Common.{ℕ, ◌+◌, List}
use zheos.Common.{◌==◌, if◌then◌else◌, u32}
use zheos.Mm.Region.{Region}
use zheos.Dtb.Names.{uart_name, gic_name, timer_name, psci_name, method_name, hvc_value, smc_value}
use zheos.Dtb.Search.{Search, found, missing, unfinished}
use zheos.Dtb.Structure
use zheos.Dtb.Structure.{Node, same_bytes}
use zheos.Dtb.Blob
use zheos.Dtb.Blob.{Dtb}

-- The `method` of PSCI, which src/arch/aarch64/psci.rs calls a conduit.
pub data Conduit : Type 0 where
  hvc : Conduit
  smc : Conduit

-- The messages, each of which names what was looked for.
pub data Wanted : Type 0 where
  root_text : Wanted
  memory_text : Wanted
  uart_text : Wanted
  gic_text : Wanted
  timer_text : Wanted
  psci_text : Wanted

abbrev pub earlycon_uart : ℕ
earlycon_uart = 0x0900_0000

abbrev pub non_secure_physical : ℕ
non_secure_physical = 1

abbrev pub spi : ℕ
spi = 0

abbrev pub ppi : ℕ
ppi = 1

abbrev pub ppi_base : ℕ
ppi_base = 16

abbrev pub spi_base : ℕ
spi_base = 32

pub record Device : Type 0 where
  pub base : ℕ
  pub intid : ℕ

pub record Gic : Type 0 where
  pub distributor_base : ℕ
  pub cpu_base : ℕ

pub record Board : Type 0 where
  pub uart : Device
  pub gic : Gic
  pub memory : Region
  pub timer_intid : ℕ
  pub psci : Conduit

abbrev pub number_of : ℕ × ℕ → Search ℕ
number_of (kind, number) =
    if kind == spi
    then found (u32 (number + spi_base))
    else (if kind == ppi then found (u32 (number + ppi_base)) else missing)

unfoldable pub intid : Node → ℕ → Search ℕ
intid node index = elim (Structure.interrupt node index) [
  | found r ↦ number_of r
  | missing ↦ missing
  | unfinished ↦ unfinished
]

-- What `discover` comes to: a board, the first thing that was not found, or the end of the fuel.
pub data Discovery {ℓ} (A : Type ℓ) : Type ℓ where
  ok : A → Discovery A
  err : Wanted → Discovery A
  out_of_fuel : Discovery A

module _ {ℓ} {A B : Type ℓ} where
  infixl 5 ◌>>=◌
  abbrev pub ◌>>=◌ : Discovery A → (A → Discovery B) → Discovery B
  ok a >>= f = f a
  err w >>= f = err w
  out_of_fuel >>= f = out_of_fuel

module _ {ℓ} {A : Type ℓ} where
  -- `ok_or(wanted)?`
  abbrev pub ok_or : Search A → Wanted → Discovery A
  ok_or (found a) wanted = ok a
  ok_or missing wanted = err wanted
  ok_or unfinished wanted = out_of_fuel

abbrev pub conduit : List ℕ → Discovery Conduit
conduit value =
    if same_bytes value hvc_value
    then ok hvc
    else (if same_bytes value smc_value then ok smc else err psci_text)

unfoldable pub discover : Dtb → Discovery Board
discover dtb = do
  cells ← ok_or (Blob.root_cells dtb) root_text
  memory_node ← ok_or (Blob.find_memory dtb) memory_text
  memory ← ok_or (Structure.region memory_node 0 cells) memory_text
  uart_node ← ok_or (Blob.find_compatible dtb uart_name) uart_text
  uart_region ← ok_or (Structure.region uart_node 0 cells) uart_text
  uart_intid ← ok_or (intid uart_node 0) uart_text
  gic_node ← ok_or (Blob.find_compatible dtb gic_name) gic_text
  distributor ← ok_or (Structure.region gic_node 0 cells) gic_text
  cpu ← ok_or (Structure.region gic_node 1 cells) gic_text
  timer_node ← ok_or (Blob.find_compatible dtb timer_name) timer_text
  timer_intid ← ok_or (intid timer_node non_secure_physical) timer_text
  psci_node ← ok_or (Blob.find_compatible dtb psci_name) psci_text
  method ← ok_or (Structure.property psci_node method_name) psci_text
  psci ← conduit method.value
  ok (record {
    uart = record { base = uart_region.base; intid = uart_intid };
    gic = record { distributor_base = distributor.base; cpu_base = cpu.base };
    memory = memory;
    timer_intid = timer_intid;
    psci = psci;
  })
