-- ===== src/Mm/Cache.antt =====
-- src/mm/slab/cache.rs: for each size class a doubly linked list of the slabs that have a free slot,
-- linked through the page table. The state is that of the heap, whose parts the methods borrow.
use zheos.Common.{ℕ, Option, none, some, Bool, true, false, List}
use zheos.Common.{◌==◌, get_elem?, set, replicate}
use zheos.Common.{Outcome, ok, ◌>>=◌, ◌>>◌, assert, expect}
use zheos.Mm.Pages.{Pages}
use zheos.Mm.Frames
use zheos.Mm.Frames.{Frames}
use zheos.Mm.Layout.{classes_count}
use zheos.Mm.Slab
use zheos.Mm.Slab.{Slab, Store}

pub record Cache : Type 0 where
  pub heads : List (Option Slab)

abbrev pub new : Cache
new = record { heads = replicate classes_count none }

-- `Heap` of src/mm/heap.rs; the words in the slots stand beside the page table.
pub record Heap : Type 0 where
  pub store : Store
  pub frames : Frames
  pub cache : Cache

-- `self.heads[class_idx]`, which panics out of range.
abbrev pub head_at : Cache → ℕ → Outcome (Option Slab)
head_at cache class_idx = expect (get_elem? cache.heads class_idx)

abbrev pub set_head : Cache → ℕ → Option Slab → Cache
set_head cache class_idx slab = record { heads = set cache.heads class_idx slab }

abbrev pub same_slab : Option Slab → Slab → Bool
same_slab none slab = false
same_slab (some s) slab = s == slab

unfoldable pub push : Cache → Pages → ℕ → Slab → Outcome (Cache × Pages)
unfolding Slab.set_next Slab.set_prev
push cache pages class_idx slab = do
  old_slab ← head_at cache class_idx
  pages ← Slab.set_next pages slab old_slab
  pages ← Slab.set_prev pages slab none
  pages ← elim old_slab [ none ↦ ok pages | some old ↦ Slab.set_prev pages old (some slab) ]
  ok (set_head cache class_idx (some slab), pages)

-- The slab before gets the next one, or the list its head.
unfoldable pub unlink_prev :
    Cache → Pages → ℕ → Slab → Option Slab → Option Slab → Outcome (Cache × Pages)
unfolding Slab.set_next
unlink_prev cache pages class_idx slab next (some prev_slab) =
    Slab.set_next pages prev_slab next >>= λ pages. ok (cache, pages)
unlink_prev cache pages class_idx slab next none = do
  head ← head_at cache class_idx
  assert (same_slab head slab)
  ok (set_head cache class_idx next, pages)

unfoldable pub unlink : Cache → Pages → Slab → Outcome (Cache × Pages)
unfolding Slab.class Slab.links Slab.set_next Slab.set_prev unlink_prev
unlink cache pages slab = do
  class_idx ← Slab.class pages slab
  around ← Slab.links pages slab
  step ← unlink_prev cache pages class_idx slab around.0 around.1
  pages ← elim around.0 [ none ↦ ok step.1 | some next ↦ Slab.set_prev step.1 next around.1 ]
  pages ← Slab.set_next pages slab none
  pages ← Slab.set_prev pages slab none
  ok (step.0, pages)

unfoldable pub pop : Cache → Pages → ℕ → Outcome (Cache × Pages)
unfolding unlink
pop cache pages class_idx = do
  slot ← head_at cache class_idx
  head ← expect slot
  unlink cache pages head

abbrev pub with_pages : Heap → Pages → Heap
with_pages h pages = record h { store = record h.store { pages = pages } }

-- A fresh slab for a class with no partial one.
unfoldable pub grow : Heap → ℕ → Outcome (Option Slab × Heap)
unfolding Frames.alloc Slab.init
grow h class_idx = Frames.alloc h.frames h.store.pages 0 >>= λ r. elim r.0 [
  | none ↦ ok (none, record (with_pages h r.2) { frames = r.1 })
  | some page_pfn ↦ Slab.init (record h.store { pages = r.2 }) page_pfn class_idx >>= λ made.
      elim made.0 [
        | none ↦ ok (none, record { store = made.1; frames = r.1; cache = h.cache })
        | some slab ↦ ok (
          some slab,
          record { store = made.1; frames = r.1; cache = set_head h.cache class_idx (some slab) },
        )
      ]
]

-- `alloc` behind the choice of a slab.
unfoldable pub alloc_in : Heap → ℕ → Slab → Outcome (Option ℕ × Heap)
unfolding Slab.alloc Slab.is_full pop
alloc_in h class_idx slab = Slab.alloc h.store slab >>= λ r. elim r.0 [
  | none ↦ ok (none, record h { store = r.1 })
  | some address ↦ Slab.is_full r.1.pages slab >>= λ full. elim full [
    | false ↦ ok (some address, record h { store = r.1 })
    | true ↦ pop h.cache r.1.pages class_idx >>= λ popped.
        ok (some address, record h { store = record r.1 { pages = popped.1 }; cache = popped.0 })
  ]
]

unfoldable pub alloc : Heap → ℕ → Outcome (Option ℕ × Heap)
unfolding grow alloc_in
alloc h class_idx = elim (get_elem? h.cache.heads class_idx) [
  | none ↦ ok (none, h)
  | some (some slab) ↦ alloc_in h class_idx slab
  | some none ↦ grow h class_idx >>= λ r. elim r.0 [
    | none ↦ ok (none, r.1)
    | some slab ↦ alloc_in r.1 class_idx slab
  ]
]

-- The end of `free`: a slab with nothing in use goes back to the frames.
unfoldable pub release : Heap → Slab → Outcome Heap
unfolding unlink Frames.free
release h slab = do
  unlinked ← unlink h.cache h.store.pages slab
  freed ← Frames.free h.frames unlinked.1 slab
  ok (record { store = record h.store { pages = freed.1 }; frames = freed.0; cache = unlinked.0 })

-- A slab that was full has a free slot again and goes back on its list.
unfoldable pub push_if : Bool → Cache → Pages → ℕ → Slab → Outcome (Cache × Pages)
unfolding push
push_if true cache pages class_idx slab = push cache pages class_idx slab
push_if false cache pages class_idx slab = ok (cache, pages)

unfoldable pub free : Heap → ℕ → Outcome Heap
unfolding Slab.from_addr Slab.class Slab.is_full Slab.free Slab.is_empty push_if release
free h address = do
  found ← Slab.from_addr h.store.pages address
  slab ← expect found
  class_idx ← Slab.class h.store.pages slab
  was_full ← Slab.is_full h.store.pages slab
  store ← Slab.free h.store slab address
  pushed ← push_if was_full h.cache store.pages class_idx slab
  let h' = record h { store = record store { pages = pushed.1 }; cache = pushed.0 }
  empty ← Slab.is_empty pushed.1 slab
  elim empty [ true ↦ release h' slab | false ↦ ok h' ]
