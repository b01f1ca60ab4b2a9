-- ===== src/Dtb/Discover.antt =====
-- src/platform/board.rs: `discover` returns, whatever the bytes of the device tree are.
use zheos.Common.{◌≡◌, Option, ◌⊎◌}
use zheos.Dtb.Search.{Search}
use zheos.Dtb.Blob.{Dtb}
use zheos.Mm.Region.{Region}
use zheos.Dtb.Board
use zheos.Dtb.Board.{Board, Wanted, Discovery, ok, err, out_of_fuel, number_of, spi, ppi}
use zheos.Dtb.Finds.{Finds, Lacks}

module _ (dtb : Dtb) where
  -- A discovery that comes to the board of the tree or to the first thing that it lacks.
  abbrev pub Decides : Discovery Board → Type 0
  Decides d =
      ((w : Wanted) × (d ≡ err w) × Lacks dtb w)
      ⊎ ((board : Board) × (d ≡ ok board) × Finds dtb board)
