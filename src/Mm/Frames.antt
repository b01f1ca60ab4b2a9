-- ===== src/Mm/Frames.antt =====
-- src/mm/frames/mod.rs: the buddy allocator over the free lists and the page table.
pub mod Seed
pub mod Tests
use zheos.Common.{
  ℕ, zero, suc, ◌+◌, ◌-◌, ◌/◌, Option, none, some, Bool, true, false, ◌==◌, List, [], ◌∷◌, min, ltb,
  leb, if◌then◌else◌, Outcome, ok, panic, ◌>>=◌, u8, ◌<<<◌, is_some,
}
use zheos.Mm.Pfn.{Pfn, offset, pages_until, alignment_order, buddy}
use zheos.Mm.PageRange
use zheos.Mm.PageRange.{PageRange}
use zheos.Mm.Map.{MemoryMap, unreserved}
use zheos.Mm.Entry
use zheos.Mm.Entry.{Entry, slab}
use zheos.Mm.Pages
use zheos.Mm.Pages.{Pages}
use zheos.Mm.FreeLists
use zheos.Mm.FreeLists.{FreeLists, max_order, Words}

pub record Frames : Type 0 where
  pub lists : FreeLists
  pub total : ℕ

unfoldable pub empty : Words → Frames
unfolding FreeLists.empty
empty words = record { lists = FreeLists.empty words; total = 0 }

-- `push`: a free block on its list and in the page table.
unfoldable pub push : FreeLists → Pages → Pfn → ℕ → Outcome (FreeLists × Pages)
unfolding FreeLists.push Pages.write
push lists pages pfn order = Pages.write pages pfn (Entry.buddy true (u8 order)) >>= λ pages'.
    ok (FreeLists.push lists pfn order, pages')

-- `(order..=MAX_ORDER).find(|&o| lists.head(o).is_some())`, with the orders that are left.
unfoldable pub find_order : ℕ → FreeLists → ℕ → Option ℕ
find_order zero lists o = none
find_order (suc left) lists o =
    let rest = find_order left lists (o + 1) in
    if is_some (FreeLists.head lists o) then some o else rest

-- `while available_order > order`: the upper halves go back, `k` orders above `order`.
unfoldable pub split : ℕ → ℕ → FreeLists → Pages → Pfn → Outcome (FreeLists × Pages)
unfolding push
split zero order lists pages pfn = ok (lists, pages)
split (suc k) order lists pages pfn =
    push lists pages (offset pfn (1 <<< (order + k))) (order + k) >>= λ r.
    let (lists', pages') = r in split k order lists' pages' pfn

-- `alloc` behind the choice of an order.
unfoldable pub take_block : Frames → Pages → ℕ → ℕ → Outcome (Option Pfn × Frames × Pages)
unfolding split FreeLists.pop Pages.write
take_block frames pages order available = elim (FreeLists.pop frames.lists available) [
  | none ↦ ok (none, frames, pages)
  | some popped ↦
      let (pfn, lists) = popped in
      split (available - order) order lists pages pfn >>= λ r.
      let (lists', pages') = r in
      Pages.write pages' pfn (Entry.buddy false (u8 order)) >>= λ pages''.
      ok (some pfn, record frames { lists = lists' }, pages'')
]

unfoldable pub alloc : Frames → Pages → ℕ → Outcome (Option Pfn × Frames × Pages)
unfolding find_order take_block
alloc frames pages order = elim (find_order (max_order + 1 - order) frames.lists order) [
  | none ↦ ok (none, frames, pages)
  | some available ↦ take_block frames pages order available
]

-- The order of the block that a page to free begins.
abbrev pub freed_order : Entry → Outcome ℕ
freed_order (Entry.buddy true order) = panic
freed_order (Entry.buddy false order) = ok order
freed_order (slab s) = ok 0

-- Whether an entry is that of a free block of the order.
abbrev pub is_free_block : Entry → ℕ → Bool
is_free_block (Entry.buddy true buddy_order) order = buddy_order == u8 order
is_free_block (Entry.buddy false buddy_order) order = false
is_free_block (slab s) order = false

-- `while order < MAX_ORDER`, with the orders that are left: the block grows by its free buddy.
unfoldable pub merge : ℕ → FreeLists → Pages → Pfn → ℕ → Outcome (FreeLists × Pfn × ℕ)
unfolding buddy FreeLists.unlink Pages.read
merge zero lists pages pfn order = ok (lists, pfn, order)
merge (suc left) lists pages pfn order =
    let other = buddy pfn order in
    if PageRange.contains (Pages.covers pages) other
    then (Pages.read pages other >>= λ entry.
        if is_free_block entry order
        then merge left (FreeLists.unlink lists other order) pages (min pfn other) (order + 1)
        else ok (lists, pfn, order))
    else ok (lists, pfn, order)

unfoldable pub free : Frames → Pages → Pfn → Outcome (Frames × Pages)
unfolding merge push Pages.read
free frames pages pfn = Pages.read pages pfn >>= λ entry. freed_order entry >>= λ order.
    merge (max_order - order) frames.lists pages pfn order >>= λ r.
    let (lists, start, grown) = r in
    push lists pages start grown >>= λ r.
    let (lists', pages') = r in ok (record frames { lists = lists' }, pages')

-- `ilog2` of a number of `width` bits, which is not 0 where the code calls it.
unfoldable pub ilog2 : ℕ → ℕ → ℕ
ilog2 zero n = 0
ilog2 (suc width) n = let rest = ilog2 width (n / 2) in if ltb n 2 then 0 else suc rest

-- The largest order of an aligned block at `block` that fits in the run.
unfoldable pub seed_order : Pfn → Pfn → ℕ
unfolding ilog2 alignment_order
seed_order block end =
    min (min max_order (alignment_order block)) (ilog2 64 (pages_until block end))

-- `while block < run.end`; `none` when the fuel runs out.
unfoldable pub seed_run : ℕ → FreeLists → Pages → Pfn → Pfn → Option (Outcome (FreeLists × Pages))
unfolding seed_order push
seed_run zero lists pages block end = none
seed_run (suc fuel) lists pages block end =
    let order = seed_order block end in
    if ltb block end
    then elim (push lists pages block order) [
      | panic ↦ some panic
      | ok r ↦ seed_run fuel r.0 r.1 (offset block (1 <<< order)) end
    ]
    else some (ok (lists, pages))

-- `for run in map.unreserved()`: a run takes at most one round for each of its pages.
unfoldable pub seed_runs : List PageRange → FreeLists → Pages → Option (Outcome (FreeLists × Pages))
unfolding seed_run
seed_runs [] lists pages = some (ok (lists, pages))
seed_runs (run ∷ runs) lists pages =
    elim (seed_run (PageRange.pages run + 1) lists pages run.start run.end) [
      | none ↦ none
      | some panic ↦ some panic
      | some (ok r) ↦ seed_runs runs r.0 r.1
    ]

abbrev pub seeded : ℕ → Outcome (FreeLists × Pages) → Outcome (Frames × Pages)
seeded total panic = panic
seeded total (ok r) = ok (record { lists = r.0; total = total }, r.1)

unfoldable pub new : MemoryMap → Pages → Words → Option (Outcome (Frames × Pages))
unfolding seed_runs FreeLists.empty
new map pages words = elim (seed_runs (unreserved map) (FreeLists.empty words) pages) [
  | none ↦ none
  | some r ↦ some (seeded pages.len r)
]
