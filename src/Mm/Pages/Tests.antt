-- ===== src/Mm/Pages/Tests.antt =====
-- Runs of src/mm/pages.rs, and its theorems at them.
use zheos.Common.{◌≡◌, refl, none, some, ◌∷◌, arith, replicate, ok, ◌>>=◌}
use zheos.Mm.Region
use zheos.Mm.Region.{Region}
use zheos.Mm.PageRange
use zheos.Mm.Gaps.{gaps}
use zheos.Mm.Pfn.{align_up, align_down}
use zheos.Mm.Map.{MemoryMap, reserve, unreserved}
use zheos.Mm.Map
use zheos.Mm.Map.Reserve.{new-IsValid}
use zheos.Mm.Entry.{SlabEntry, slab, to_u64, from_u64}
use zheos.Mm.Entry.RoundTrip.{from_u64-to_u64}
use zheos.Mm.Pages.{Pages, new, read, write, cleared}
use zheos.Mm.Pages.Table.{read-write}
use zheos.Mm.Pages.New.{Placed, new-Placed}

abbrev whole : MemoryMap
whole = record {
  arena = record { base = 0x4000_0000; size = 0x4000 };
  reserved = replicate 16 Region.empty;
  len = 0;
}

abbrev table : Region
table = record { base = 0x4000_0000; size = 0x1000 }

abbrev pages : Pages
pages = cleared whole.arena table 4

abbrev less : MemoryMap
less = record whole { reserved = table ∷ replicate 15 Region.empty; len = 1 }

new-whole : new whole ≡ some (pages, less)
unfolding new unreserved gaps PageRange.new reserve
new-whole = refl

abbrev partial : SlabEntry
partial = record {
  class = 3;
  free_head = some 5;
  in_use = 7;
  next_partial = none;
  prev_partial = some 2;
}

word : from_u64 (to_u64 (slab partial)) ≡ slab partial
unfolding from_u64 to_u64
word = refl

from_u64-to_u64_example : from_u64 (to_u64 (slab partial)) ≡ slab partial
from_u64-to_u64_example = from_u64-to_u64 (slab partial) (omega arith)

read-write_example :
    (write pages 0x4_0001 (slab partial) >>= λ t. read t 0x4_0001) ≡ ok (slab partial)
read-write_example =
    read-write pages 0x4_0001 0x4_0001 (slab partial) (omega arith) (omega arith) (omega arith)
      (omega arith)

abbrev ram : Region
ram = record { base = 0x4000_0000; size = 0x4000 }

new-ram : Map.new ram ≡ some whole
unfolding Map.new align_up align_down
new-ram = refl

new-Placed_example : Placed whole pages less
new-Placed_example =
    new-Placed whole (new-IsValid ram (omega arith) (omega arith) new-ram) new-whole
