-- ===== src/Mm/Gaps.antt =====
-- src/mm/gaps.rs: the parts of an arena that no taken region covers, in address order. The
-- iterator's closure is `next`, its `while` loop is `skip`, and `gaps` collects what it yields. The
-- fuels are explained by the theorems: a round of `skip` leaves one range behind for good, and so
-- does a run, but for the last one.
pub mod Cover
pub mod Runs
pub mod Bytes
mod Tests
use zheos.Common.{ℕ, zero, suc, ◌+◌, min, Option, none, some, List, [], ◌∷◌}
use zheos.Common.{ltb, leb, if◌then◌else◌, length}
use zheos.Mm.Pfn.{Pfn, from_addr_up, from_addr_down}
use zheos.Mm.Region
use zheos.Mm.Region.{Region}
use zheos.Mm.PageRange
use zheos.Mm.PageRange.{PageRange}

-- `filter_map` by `PageRange::new`.
pub ranges : Region → List Region → List PageRange
ranges arena [] = []
ranges arena (region ∷ taken) = elim (PageRange.new region arena) [
  | none ↦ ranges arena taken
  | some r ↦ r ∷ ranges arena taken
]

-- `find` and `map` of `containing`, over the ranges.
pub containing : List PageRange → Pfn → Option Pfn
containing [] pfn = none
containing (r ∷ rs) pfn = if PageRange.contains r pfn then some r.end else containing rs pfn

-- `filter`, `map` and `min` of `next_base_above`, over the ranges.
pub next_base_above : List PageRange → Pfn → Option Pfn
next_base_above [] pfn = none
next_base_above (r ∷ rs) pfn =
    let rest = next_base_above rs pfn in
    if ltb pfn r.start then some (elim rest [ none ↦ r.start | some b ↦ min r.start b ]) else rest

-- `while let Some(stop) = containing(cursor) { cursor = stop }`
pub skip : ℕ → List PageRange → Pfn → Pfn
skip zero rs cursor = cursor
skip (suc fuel) rs cursor = elim (containing rs cursor) [
  | none ↦ cursor
  | some stop ↦ skip fuel rs stop
]

-- One call of the closure: the run that it returns, whose end is the next cursor.
pub next : ℕ → List PageRange → Pfn → Pfn → Option PageRange
next fuel rs end cursor =
    let cursor = skip fuel rs cursor in
    if leb end cursor
    then none
    else some (record {
      start = cursor;
      end = min (elim (next_base_above rs cursor) [ none ↦ end | some b ↦ b ]) end;
    })

pub collect : ℕ → ℕ → List PageRange → Pfn → Pfn → List PageRange
collect zero fuel rs end cursor = []
collect (suc k) fuel rs end cursor = elim (next fuel rs end cursor) [
  | none ↦ []
  | some run ↦ run ∷ collect k fuel rs end run.end
]

unfoldable pub gaps : Region → List Region → List PageRange
unfolding ranges containing next_base_above skip next collect
gaps arena taken =
    let rs = ranges arena taken in
    collect (length rs + 2) (length rs) rs (from_addr_down (Region.end arena))
      (from_addr_up arena.base)
