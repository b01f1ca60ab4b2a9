-- ===== src/Mm/PageRange.antt =====
-- src/mm/region.rs, `PageRange`: whole pages, the start included and the end not.
use zheos.Common.{ℕ, min, max, Bool, ◌&&◌, Option, none, some}
use zheos.Common.{mul64, ltb, leb, if◌then◌else◌}
use zheos.Mm.Pfn.{Pfn, page_size, to_addr, from_addr_down, from_addr_up, pages_until}
use zheos.Mm.Region
use zheos.Mm.Region.{Region}

pub record PageRange : Type 0 where
  pub start : Pfn
  pub end : Pfn

unfoldable pub new : Region → Region → Option PageRange
new region arena =
    let base = max region.base arena.base in
    let end = min (Region.end region) (Region.end arena) in
    if ltb base end
    then some (record { start = from_addr_down base; end = from_addr_up end })
    else none

abbrev pub pages : PageRange → ℕ
pages r = pages_until r.start r.end

abbrev pub contains : PageRange → Pfn → Bool
contains r pfn = leb r.start pfn && ltb pfn r.end

abbrev pub region : PageRange → Region
region r = record { base = to_addr r.start; size = mul64 (pages r) page_size }
