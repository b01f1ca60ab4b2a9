-- ===== src/Mm/Gaps/Tests.antt =====
-- Runs of src/mm/gaps.rs, and its theorems at one of them.
use zheos.Common.{◌≡◌, refl, true, ◌↔◌, List, [], ◌∷◌, arith}
use zheos.Mm.Region
use zheos.Mm.Region.{Region}
use zheos.Mm.PageRange
use zheos.Mm.Pfn.{from_addr_up, from_addr_down}
use zheos.Mm.Gaps.{gaps}
use zheos.Mm.Gaps.Cover.{covered}
use zheos.Mm.Gaps.Runs.{IsOrdered}
use zheos.Mm.Gaps.Bytes.{IsFree, gaps-IsFree, gaps-IsOrdered}

-- Eight pages, of which one byte of page 2 and pages 4 to 5 are taken.
abbrev arena : Region
arena = record { base = 0x10000; size = 0x8000 }

abbrev taken : List Region
taken = record { base = 0x14000; size = 0x1001 } ∷ record { base = 0x12fff; size = 1 } ∷ []

three_runs :
    gaps arena taken
    ≡ record { start = 0x10; end = 0x12 }
      ∷ record { start = 0x13; end = 0x14 }
      ∷ record { start = 0x16; end = 0x18 }
      ∷ []
unfolding gaps PageRange.new
three_runs = refl

gaps-IsFree_example : (covered (gaps arena taken) 0x13 ≡ true) ↔ IsFree arena taken 0x13
gaps-IsFree_example = gaps-IsFree arena taken (omega arith) (omega arith) 0x13

gaps-IsOrdered_example :
    IsOrdered (from_addr_up arena.base) (from_addr_down (Region.end arena)) (gaps arena taken)
gaps-IsOrdered_example = gaps-IsOrdered arena taken
