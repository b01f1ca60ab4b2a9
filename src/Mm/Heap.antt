-- ===== src/Mm/Heap.antt =====
-- src/mm/heap.rs: the heap behind the global allocator. Small objects come from the slabs, others from
-- the frames in blocks of a power of two of pages.
pub mod Sizes
mod Tests
use zheos.Common.{ℕ, zero, suc, ◌+◌, ◌*◌, ◌/◌, max, Option, none, some, Bool, true, false}
use zheos.Common.{ltb, ◌==◌, ◌/=◌, if◌then◌else◌, div_ceil, u64}
use zheos.Common.{Outcome, ok, panic, ◌>>=◌, ◌>>◌, assert, is_some}
use zheos.Mm.Pfn.{page_size, to_addr, from_addr_down}
use zheos.Mm.Map.{MemoryMap}
use zheos.Mm.Entry
use zheos.Mm.Entry.{Entry}
use zheos.Mm.Pages
use zheos.Mm.Frames
use zheos.Mm.Frames.{ilog2}
use zheos.Mm.FreeLists.{Words}
use zheos.Mm.Layout.{Layout, class_of}
use zheos.Mm.Slab.{is_slab}
use zheos.Mm.Cache
use zheos.Mm.Cache.{Heap}

unfoldable pub empty : Words → (ℕ → ℕ) → Heap
unfolding Pages.empty Frames.empty
empty words memory = record {
  store = record { pages = Pages.empty; memory = memory };
  frames = Frames.empty words;
  cache = Cache.new;
}

-- `init`, which panics when there is no room for the page table; `none` when the fuel of a loop runs
-- out.
unfoldable pub init : Heap → MemoryMap → Option (Outcome (Heap × MemoryMap))
unfolding Pages.new Frames.new
init h map = if h.store.pages.len /= 0 then some (ok (h, map)) else elim (Pages.new map) [
  | none ↦ some panic
  | some (pages, map') ↦ elim (Frames.new map' pages h.frames.lists.words) [
    | none ↦ none
    | some panic ↦ some panic
    | some (ok (frames, pages')) ↦ some (
        ok (
          record { store = record h.store { pages = pages' }; frames = frames; cache = Cache.new },
          map',
        ))
  ]
]

-- `next_power_of_two`, by doubling from 1; in 64 bits it wraps to 0 above 2 ^ 63.
unfoldable pub next_power_from : ℕ → ℕ → ℕ → ℕ
next_power_from zero p n = u64 p
next_power_from (suc left) p n =
    let rest = next_power_from left (2 * p) n in if ltb p n then rest else p

unfoldable pub next_power_of_two : ℕ → ℕ
unfolding next_power_from
next_power_of_two n = next_power_from 64 1 n

-- The order of the block for a layout that no class serves.
unfoldable pub order_of : Layout → ℕ
unfolding next_power_of_two ilog2
order_of layout =
    let size_pages = div_ceil layout.size page_size in
    let align_pages = div_ceil layout.align page_size in
    ilog2 64 (next_power_of_two (max size_pages align_pages))

unfoldable pub alloc_pages : Heap → ℕ → Outcome (Option ℕ × Heap)
unfolding Frames.alloc
alloc_pages h order = Frames.alloc h.frames h.store.pages order >>= λ r.
    let h' = record (Cache.with_pages h r.2) { frames = r.1 } in
    elim r.0 [ none ↦ ok (none, h') | some page_pfn ↦ ok (some (to_addr page_pfn), h') ]

unfoldable pub alloc_layout : Heap → Layout → Outcome (Option ℕ × Heap)
unfolding class_of order_of alloc_pages Cache.alloc
alloc_layout h layout = elim (class_of layout) [
  | some class_idx ↦ Cache.alloc h class_idx
  | none ↦ alloc_pages h (order_of layout)
]

unfoldable pub free_pages : Heap → ℕ → Outcome Heap
unfolding Frames.free
free_pages h address = Frames.free h.frames h.store.pages (from_addr_down address) >>= λ r.
    ok (record (Cache.with_pages h r.1) { frames = r.0 })

-- `==` on `bool`.
abbrev pub same : Bool → Bool → Bool
same true b = b
same false true = false
same false false = true

unfoldable pub free_layout : Heap → ℕ → Layout → Outcome Heap
unfolding class_of Pages.read Cache.free free_pages
free_layout h address layout = do
  entry ← Pages.read h.store.pages (from_addr_down address)
  assert (same (is_some (class_of layout)) (is_slab entry))
  elim entry [ Entry.slab e ↦ Cache.free h address | Entry.buddy free order ↦ free_pages h address ]
