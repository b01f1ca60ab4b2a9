-- ===== src/Mm/Pages.antt =====
-- src/mm/pages.rs, `Pages`: the page table, one 64-bit word for each page of the arena, which stands
-- in memory taken from the map. The words are the model's `entries`, by index; the code's pointer
-- arithmetic from `region.base` is the index, and `assert!` keeps it in range.
pub mod Table
pub mod New
mod Tests
use zheos.Common.{ℕ, ◌+◌, ◌*◌, ◌/◌, Bool, true, false, ◌||◌, Option, none, some, List, [], ◌∷◌}
use zheos.Common.{ltb, leb, ◌==◌, if◌then◌else◌, mul64, u32, div_ceil}
use zheos.Common.{Outcome, ok, ◌>>=◌, ◌>>◌, assert}
use zheos.Mm.Pfn.{Pfn, page_size, to_addr, from_addr_down, offset, index_from}
use zheos.Mm.Region
use zheos.Mm.Region.{Region}
use zheos.Mm.PageRange
use zheos.Mm.PageRange.{PageRange}
use zheos.Mm.Map.{MemoryMap, reserve, unreserved}
use zheos.Mm.Entry.{Entry, ArenaIndex, max_pages, to_u64, from_u64}

abbrev pub entry_size : ℕ
entry_size = 8

pub record Pages : Type 0 where
  pub region : Region
  pub base : Pfn
  pub len : ℕ
  pub entries : ℕ → ℕ

unfoldable pub empty : Pages
empty = record { region = Region.empty; base = 0; len = 0; entries = λ _. 0 }

unfoldable pub required_size : Region → ℕ
required_size arena = div_ceil (mul64 (arena.size / page_size) entry_size) page_size

-- `find(|run| run.pages() >= needed)`
unfoldable pub find_run : ℕ → List PageRange → Option PageRange
find_run needed [] = none
find_run needed (run ∷ runs) =
    if leb needed (PageRange.pages run) then some run else find_run needed runs

-- The table of `len` words in `region`, which `write_bytes` cleared.
abbrev pub cleared : Region → Region → ℕ → Pages
cleared arena region len = record {
  region = region;
  base = from_addr_down arena.base;
  len = len;
  entries = λ _. 0;
}

-- The part of `new` behind the search: `NonNull::new(..)?` refuses address 0, `reserve(..).ok()?` a
-- full map. `None` leaves the map as it was.
unfoldable pub claim : MemoryMap → Region → ℕ → Option (Pages × MemoryMap)
claim map region len = if region.base == 0 then none else elim (reserve map region) [
  | none ↦ none
  | some map' ↦ some (cleared map.arena region len, map')
]

unfoldable pub new : MemoryMap → Option (Pages × MemoryMap)
unfolding required_size find_run claim
new map =
    let len = map.arena.size / page_size in
    let needed = required_size map.arena in
    if len == 0 || ltb max_pages len then none else elim (find_run needed (unreserved map)) [
      | none ↦ none
      | some run ↦
          claim map (record { base = to_addr run.start; size = mul64 needed page_size }) len
    ]

abbrev pub index_of : Pages → Pfn → ArenaIndex
index_of pages pfn = u32 (index_from pfn pages.base)

abbrev pub pfn_of : Pages → ArenaIndex → Pfn
pfn_of pages index = offset pages.base index

abbrev pub covers : Pages → PageRange
covers pages = record { start = pages.base; end = offset pages.base pages.len }

-- `entry`: the index of the word, where the assertion holds.
unfoldable pub entry : Pages → Pfn → Outcome ℕ
entry pages pfn = do assert (PageRange.contains (covers pages) pfn); ok (index_from pfn pages.base)

unfoldable pub read : Pages → Pfn → Outcome Entry
unfolding entry
read pages pfn = do i ← entry pages pfn; ok (from_u64 (pages.entries i))

abbrev pub update : (ℕ → ℕ) → ℕ → ℕ → ℕ → ℕ
update f i v j = if i == j then v else f j

unfoldable pub write : Pages → Pfn → Entry → Outcome Pages
unfolding entry
write pages pfn e = do
  i ← entry pages pfn
  ok (record pages { entries = update pages.entries i (to_u64 e) })
