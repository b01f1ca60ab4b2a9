-- ===== src/Mm/Pages/New.antt =====
-- `Pages::new` of src/mm/pages.rs: where the table goes.
use zheos.Common.{
  ℕ, ◌+◌, ◌-◌, ◌*◌, ◌/◌, ◌≤◌, ◌<◌, ◌^◌, ◌≡◌, sym, ◌≢◌, mul64, ap, ◌∙◌, subst, true, false, ◌↔◌,
  arith,
}
use zheos.Common.{some, List, [], ◌∷◌, leb, ok, Option-cases, Bool-cases, inl, inr}
use zheos.Mm.Pfn.{Pfn, to_addr, from_addr_up, from_addr_down}
use zheos.Mm.Region
use zheos.Mm.Region.{Region}
use zheos.Mm.PageRange
use zheos.Mm.PageRange.{PageRange}
use zheos.Mm.Gaps.Cover.{covered}
use zheos.Mm.Gaps.Runs.{IsOrdered}
use zheos.Mm.Gaps.Bytes.{IsInside, gaps-IsOrdered}
use zheos.Mm.Map.{MemoryMap, taken, reserve, unreserved}
use zheos.Mm.Map.Reserve.{IsValid}
use zheos.Mm.Entry.{buddy, from_u64, max_pages}
use zheos.Mm.Pages.{Pages, required_size, find_run, claim, cleared, new, read}
use zheos.Mm.Pages.Table.{Has, read-ok}

-- A run that is big enough, all of whose pages the runs cover.
record Found (needed lo hi : ℕ) (runs : List PageRange) (run : PageRange) : Type 0 where
  from : lo ≤ run.start
  big : needed ≤ run.end - run.start
  inside : run.end ≤ hi
  free : (q : Pfn) → run.start ≤ q → q < run.end → covered runs q ≡ true

find_run-Found :
    (needed lo hi : ℕ) (runs : List PageRange) (run : PageRange)
    → hi < 2 ^ 52
    → IsOrdered lo hi runs
    → find_run needed runs ≡ some run
    → Found needed lo hi runs run
unfolding find_run covered
find_run-Found needed lo hi [] run small o e = absurd (ground arith)
find_run-Found needed lo hi (r ∷ runs) run small (from, some_page, inside, rest) e =
    elim (Bool-cases (leb needed (PageRange.pages r))) [
      | inl big ↦
          let same : r ≡ run = ground arith in
          subst (Found needed lo hi (r ∷ runs)) same (record {
            from = from;
            big = ground arith;
            inside = inside;
            free = λ q h l. ground arith;
          })
      | inr small' ↦
          let f = find_run-Found needed r.end hi runs run small rest (ground arith) in
          record {
            from = omega (arith, f.from);
            big = f.big;
            inside = f.inside;
            free = λ q h l. ground (arith, f.free q h l);
          }
    ]

-- The table that a map gets, and the map that is left.
pub record Placed (map : MemoryMap) (pages : Pages) (map' : MemoryMap) : Type 0 where
  -- The table has room for the word of every page of the arena.
  pub room : 8 * pages.len ≤ pages.region.size
  -- It takes whole pages, and none that was not free.
  pub first : Pfn
  pub count : ℕ
  pub at : pages.region.base ≡ first * 4096
  pub size : pages.region.size ≡ count * 4096
  pub free : (q : Pfn) → first ≤ q → q < first + count → covered (unreserved map) q ≡ true
  pub held : reserve map pages.region ≡ some map'
  -- It covers exactly the pages of the arena.
  pub covers : (p : Pfn) → Has pages p ↔ IsInside p map.arena
  -- No page is free or a slab yet.
  pub clear : (p : Pfn) → Has pages p → read pages p ≡ ok (buddy false 0)

unreserved-IsOrdered :
    (map : MemoryMap)
    → IsOrdered
        (from_addr_up map.arena.base)
        (from_addr_down (Region.end map.arena))
        (unreserved map)
unfolding unreserved
unreserved-IsOrdered map = gaps-IsOrdered map.arena (taken map)

claim-held :
    (map : MemoryMap) (region : Region) (len : ℕ) {pages : Pages} {map' : MemoryMap}
    → claim map region len ≡ some (pages, map')
    → (pages ≡ cleared map.arena region len) × (reserve map region ≡ some map')
unfolding claim
claim-held map region len e = ground arith

new-parts :
    (map : MemoryMap) {pages : Pages} {map' : MemoryMap}
    → new map ≡ some (pages, map')
    → (run : PageRange) × (find_run (required_size map.arena) (unreserved map) ≡ some run)
      × (pages
          ≡ cleared map.arena
              (record { base = to_addr run.start; size = mul64 (required_size map.arena) 4096 })
              (map.arena.size / 4096))
      × (reserve map pages.region ≡ some map')
      × (map.arena.size / 4096 ≢ 0)
      × (map.arena.size / 4096 ≤ max_pages)
unfolding new
new-parts map {pages} {map'} e =
    elim (Option-cases (find_run (required_size map.arena) (unreserved map))) [
      | inl f ↦ absurd (ground arith)
      | inr (run, f) ↦
          let region : Region = record {
            base = to_addr run.start;
            size = mul64 (required_size map.arena) 4096;
          } in
          let c : claim map region (map.arena.size / 4096) ≡ some (pages, map') = ground arith in
          let (a, b) = claim-held map region (map.arena.size / 4096) c in
          (
            run,
            f,
            a,
            subst (λ (t : Pages). reserve map t.region ≡ some map') (sym a) b,
            ground arith,
            ground arith,
          )
    ]

-- The table that `new` makes has room for every page of the arena, stands on whole pages that were
-- free and are reserved in the map that is left, covers exactly the arena's pages, and says of each
-- that it is not free.
pub new-Placed :
    (map : MemoryMap) {pages : Pages} {map' : MemoryMap}
    → IsValid map
    → new map ≡ some (pages, map')
    → Placed map pages map'
unfolding required_size from_u64
new-Placed map {pages} {map'} v e =
    let (run, f, p, h, some_pages, few) = new-parts map e in
    let lo = from_addr_up map.arena.base in
    let hi = from_addr_down (Region.end map.arena) in
    let found =
      find_run-Found (required_size map.arena) lo hi (unreserved map) run (omega arith)
        (unreserved-IsOrdered map) f in
    let n = required_size map.arena in
    let start : (to_addr run.start) ≡ run.start * 4096 = omega (arith, found.big, found.inside) in
    let size : (mul64 n 4096) ≡ n * 4096 = omega arith in
    let base : pages.base ≡ map.arena.base / 4096 = ap (λ (t : Pages). t.base) p in
    let len : pages.len ≡ map.arena.size / 4096 = ap (λ (t : Pages). t.len) p in
    let held : pages.region.size ≡ mul64 n 4096 = ap (λ (t : Pages). t.region.size) p in
    record {
      room = omega arith;
      first = run.start;
      count = n;
      at = ap (λ (t : Pages). t.region.base) p ∙ start;
      size = ap (λ (t : Pages). t.region.size) p ∙ size;
      free = λ q a b. found.free q a (omega (arith, found.big));
      held = h;
      covers = λ q. (omega arith, omega arith);
      clear = λ q has.
          read-ok pages q (omega arith) has
          ∙ ap (λ (t : Pages). ok (from_u64 (t.entries (q - pages.base)))) p;
    }
