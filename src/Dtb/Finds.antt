-- ===== src/Dtb/Finds.antt =====
-- src/platform/board.rs: what the device tree says of each device that `discover` looks for.
use zheos.Common.{ℕ, ◌≡◌, List, ◌⊎◌, ◌≢◌}
use zheos.Dtb.Names.{uart_name, gic_name, timer_name, psci_name, method_name, hvc_value, smc_value}
use zheos.Dtb.Search.{found, missing}
use zheos.Dtb.Structure.{property, region, Node, Property}
use zheos.Dtb.Blob.{Dtb, root_cells, find_memory, find_compatible}
use zheos.Mm.Region.{Region}
use zheos.Dtb.Board
use zheos.Dtb.Board.{
  Board, Wanted, Discovery, ok, err, out_of_fuel, ◌>>=◌, ok_or, intid, number_of, spi, ppi, conduit,
  discover,
}

-- The `method` property says one of the two words.
abbrev pub Says : List ℕ → Board.Conduit → Type 0
Says value Board.hvc = value ≡ hvc_value
Says value Board.smc = (value ≢ hvc_value) × (value ≡ smc_value)

-- What the tree says of each device, for the cells of its root.
module _ (dtb : Dtb) where
  abbrev pub HasMemory : ℕ × ℕ → Region → Type 0
  HasMemory cells r =
      (node : Node) × (find_memory dtb ≡ found node) × (region node 0 cells ≡ found r)

  abbrev pub NoMemory : ℕ × ℕ → Type 0
  NoMemory cells =
      (find_memory dtb ≡ missing)
      ⊎ ((node : Node) × (find_memory dtb ≡ found node) × (region node 0 cells ≡ missing))

  abbrev pub HasUart : ℕ × ℕ → Board.Device → Type 0
  HasUart cells uart =
      (node : Node) × (r : Region) × (find_compatible dtb uart_name ≡ found node)
      × (region node 0 cells ≡ found r)
      × (uart.base ≡ r.base)
      × (intid node 0 ≡ found uart.intid)

  abbrev pub NoUart : ℕ × ℕ → Type 0
  NoUart cells =
      (find_compatible dtb uart_name ≡ missing)
      ⊎ ((node : Node) × (find_compatible dtb uart_name ≡ found node)
          × ((region node 0 cells ≡ missing) ⊎ (intid node 0 ≡ missing)))

  abbrev pub HasGic : ℕ × ℕ → Board.Gic → Type 0
  HasGic cells gic =
      (node : Node) × (distributor : Region) × (cpu : Region) × (find_compatible dtb gic_name
        ≡ found node)
      × (region node 0 cells ≡ found distributor)
      × (region node 1 cells ≡ found cpu)
      × (gic.distributor_base ≡ distributor.base)
      × (gic.cpu_base ≡ cpu.base)

  abbrev pub NoGic : ℕ × ℕ → Type 0
  NoGic cells =
      (find_compatible dtb gic_name ≡ missing)
      ⊎ ((node : Node) × (find_compatible dtb gic_name ≡ found node)
          × ((region node 0 cells ≡ missing) ⊎ (region node 1 cells ≡ missing)))

  abbrev pub HasTimer : ℕ → Type 0
  HasTimer n =
      (node : Node) × (find_compatible dtb timer_name ≡ found node) × (intid node 1 ≡ found n)

  abbrev pub NoTimer : Type 0
  NoTimer =
      (find_compatible dtb timer_name ≡ missing)
      ⊎ ((node : Node) × (find_compatible dtb timer_name ≡ found node) × (intid node 1 ≡ missing))

  abbrev pub HasPsci : Board.Conduit → Type 0
  HasPsci psci =
      (node : Node) × (method : Property) × (find_compatible dtb psci_name ≡ found node)
      × (property node method_name ≡ found method)
      × Says method.value psci

  abbrev pub NoPsci : Type 0
  NoPsci =
      (find_compatible dtb psci_name ≡ missing)
      ⊎ ((node : Node) × (find_compatible dtb psci_name ≡ found node)
          × ((property node method_name ≡ missing)
              ⊎ ((method : Property) × (property node method_name ≡ found method)
                  × (method.value ≢ hvc_value)
                  × (method.value ≢ smc_value))))

  pub record Finds (board : Board) : Type 0 where
    pub cells : ℕ × ℕ
    pub root : root_cells dtb ≡ found cells
    pub memory : HasMemory cells board.memory
    pub uart : HasUart cells board.uart
    pub gic : HasGic cells board.gic
    pub timer : HasTimer board.timer_intid
    pub psci : HasPsci board.psci

  -- The tree lacks the device that is named, and has those that are looked for before it.
  abbrev pub Lacks : Wanted → Type 0
  Lacks Board.root_text = root_cells dtb ≡ missing
  Lacks Board.memory_text = (cells : ℕ × ℕ) × (root_cells dtb ≡ found cells) × NoMemory cells
  Lacks Board.uart_text =
      (cells : ℕ × ℕ) × (root_cells dtb ≡ found cells)
      × ((r : Region) × HasMemory cells r)
      × NoUart cells
  Lacks Board.gic_text =
      (cells : ℕ × ℕ) × (root_cells dtb ≡ found cells)
      × ((r : Region) × HasMemory cells r)
      × ((uart : Board.Device) × HasUart cells uart)
      × NoGic cells
  Lacks Board.timer_text =
      (cells : ℕ × ℕ) × (root_cells dtb ≡ found cells)
      × ((r : Region) × HasMemory cells r)
      × ((uart : Board.Device) × HasUart cells uart)
      × ((gic : Board.Gic) × HasGic cells gic)
      × NoTimer
  Lacks Board.psci_text =
      (cells : ℕ × ℕ) × (root_cells dtb ≡ found cells)
      × ((r : Region) × HasMemory cells r)
      × ((uart : Board.Device) × HasUart cells uart)
      × ((gic : Board.Gic) × HasGic cells gic)
      × ((n : ℕ) × HasTimer n)
      × NoPsci
