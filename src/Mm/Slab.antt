-- ===== src/Mm/Slab.antt =====
-- src/mm/slab/mod.rs: a page cut into slots of one size class. The entry of the page holds the first
-- free slot and the number in use; each free slot holds the number of the next in its first two
-- bytes, which are the model's `memory`, 16-bit words by address.
pub mod Chain
pub mod Holds
pub mod Taken
pub mod Given
pub mod Misuse
pub mod Fresh
pub mod Cycle
mod Tests
use zheos.Common.{
  ℕ, zero, suc, ◌+◌, ◌-◌, ◌*◌, Option, none, some, Bool, true, false, not, List, [], ◌∷◌,
}
use zheos.Common.{
  ltb, leb, ◌==◌, ◌/=◌, if◌then◌else◌, add64, sub64, u8, u16, ◌<<<◌, ◌>>>◌, get_elem?,
}
use zheos.Common.{Outcome, ok, panic, ◌>>=◌, ◌>>◌, assert, expect}
use zheos.Mm.Pfn.{Pfn, page_size, to_addr, from_addr_down}
use zheos.Mm.Entry
use zheos.Mm.Entry.{Entry, SlabEntry, slot_new, slot_to_raw, slot_from_raw}
use zheos.Mm.Pages
use zheos.Mm.Pages.{Pages, index_of, pfn_of}
use zheos.Mm.Layout.{shifts, classes_count, is_multiple_of_pow2}

-- `Slab` is a page frame number.
abbrev pub Slab : Type 0
Slab = Pfn

-- What the methods change: the page table and the words in the slots.
pub record Store : Type 0 where
  pub pages : Pages
  pub memory : ℕ → ℕ

unfoldable pub shift_of : ℕ → Option ℕ
shift_of class = get_elem? shifts class

abbrev pub div_pow2 : ℕ → ℕ → ℕ
div_pow2 a b = a >>> b

abbrev pub mul_pow2 : ℕ → ℕ → ℕ
mul_pow2 a b = a <<< b

abbrev pub update : (ℕ → ℕ) → ℕ → ℕ → (ℕ → ℕ)
update memory address value = λ a. if a == address then value else memory a

abbrev pub write_entry : Store → Slab → SlabEntry → Outcome Store
write_entry st slab e =
    Pages.write st.pages slab (Entry.slab e) >>= λ pages. ok (record st { pages = pages })

-- `matches!(entry, Entry::Slab { .. })`
abbrev pub is_slab : Entry → Bool
is_slab (Entry.slab e) = true
is_slab (Entry.buddy free order) = false

unfoldable pub at : Pages → Pfn → Outcome (Option Slab)
at pages pfn = Pages.read pages pfn >>= λ e. ok (if is_slab e then some pfn else none)

unfoldable pub from_addr : Pages → ℕ → Outcome (Option Slab)
unfolding at
from_addr pages addr = at pages (from_addr_down addr)

-- The loop of `link_slots` at slot `i`, with the slots that are left.
unfoldable pub link_from : ℕ → ℕ → ℕ → ℕ → ℕ → (ℕ → ℕ) → (ℕ → ℕ)
unfolding slot_new slot_to_raw
link_from zero i count base shift memory = memory
link_from (suc left) i count base shift memory =
    let next = if ltb i (sub64 count 1) then slot_new (i + 1) else none in
    link_from left (i + 1) count base shift
      (update memory (add64 base (mul_pow2 i shift)) (slot_to_raw next))

unfoldable pub link_slots : Slab → ℕ → (ℕ → ℕ) → (ℕ → ℕ)
unfolding link_from
link_slots slab shift memory =
    let count = div_pow2 page_size shift in link_from count 0 count (to_addr slab) shift memory

abbrev pub new_entry : ℕ → SlabEntry
unfolding slot_new
new_entry class_idx = record {
  class = u8 class_idx;
  free_head = slot_new 0;
  in_use = 0;
  next_partial = none;
  prev_partial = none;
}

unfoldable pub init : Store → Pfn → ℕ → Outcome (Option Slab × Store)
unfolding link_slots
init st pfn class_idx = elim (shift_of class_idx) [
  | none ↦ ok (none, st)
  | some shift ↦
      write_entry (record st { memory = link_slots pfn shift st.memory }) pfn (new_entry class_idx)
      >>= λ st'. ok (some pfn, st')
]

-- `alloc` with the entry, its first free slot and its shift at hand.
unfoldable pub take_slot : Store → Slab → SlabEntry → ℕ → ℕ → Outcome (Option ℕ × Store)
unfolding slot_from_raw
take_slot st slab e head shift =
    if leb (div_pow2 page_size shift) head
    then ok (none, st)
    else (let address = add64 (to_addr slab) (mul_pow2 head shift) in
        write_entry st slab
          (record e { free_head = slot_from_raw (st.memory address); in_use = u16 (e.in_use + 1) })
        >>= λ st'. ok (some address, st'))

-- `alloc` behind `pages.read`: `free_head?` and `SHIFTS.get(..)?`.
abbrev pub alloc_from : Store → Slab → Entry → Outcome (Option ℕ × Store)
unfolding take_slot
alloc_from st slab (Entry.buddy free order) = ok (none, st)
alloc_from st slab (Entry.slab e) = elim e.free_head [
  | none ↦ ok (none, st)
  | some head ↦ elim (shift_of e.class) [
    | none ↦ ok (none, st)
    | some shift ↦ take_slot st slab e head shift
  ]
]

unfoldable pub alloc : Store → Slab → Outcome (Option ℕ × Store)
unfolding take_slot
alloc st slab = Pages.read st.pages slab >>= λ e. alloc_from st slab e

abbrev pub same_slot : Option ℕ → ℕ → Bool
same_slot none idx = false
same_slot (some head) idx = head == idx

-- `free` behind `pages.read`, on the entry of a slab.
unfoldable pub give_slot : Store → Slab → SlabEntry → ℕ → Outcome Store
unfolding slot_new slot_to_raw
give_slot st slab e address = do
  shift ← expect (shift_of e.class)
  assert (from_addr_down address == slab)
  let offset = sub64 address (to_addr slab)
  assert (is_multiple_of_pow2 offset (1 <<< shift))
  idx ← expect (slot_new (div_pow2 offset shift))
  assert (e.in_use /= 0)
  assert (not (same_slot e.free_head idx))
  write_entry (record st { memory = update st.memory address (slot_to_raw e.free_head) }) slab
      (record e { free_head = some idx; in_use = e.in_use - 1 })

abbrev pub free_at : Store → Slab → Entry → ℕ → Outcome Store
unfolding give_slot
free_at st slab (Entry.buddy free order) address = panic
free_at st slab (Entry.slab e) address = give_slot st slab e address

unfoldable pub free : Store → Slab → ℕ → Outcome Store
unfolding give_slot
free st slab address = Pages.read st.pages slab >>= λ e. free_at st slab e address

unfoldable pub class : Pages → Slab → Outcome ℕ
class pages slab = Pages.read pages slab >>= λ entry. elim entry [
  | Entry.buddy free order ↦ panic
  | Entry.slab e ↦ assert (ltb e.class classes_count) >> ok e.class
]

-- A partial link of an entry: the slab at that page, if there is one.
abbrev pub link_at : Pages → Option ℕ → Outcome (Option Slab)
unfolding at
link_at pages none = ok none
link_at pages (some index) = at pages (pfn_of pages index)

-- The next slab and the one before.
unfoldable pub links : Pages → Slab → Outcome (Option Slab × Option Slab)
unfolding at
links pages slab = Pages.read pages slab >>= λ entry. elim entry [
  | Entry.buddy free order ↦ ok (none, none)
  | Entry.slab e ↦ link_at pages e.next_partial >>= λ next.
      link_at pages e.prev_partial >>= λ prev. ok (next, prev)
]

abbrev pub index_at : Pages → Option Slab → Option ℕ
index_at pages none = none
index_at pages (some slab) = some (index_of pages slab)

unfoldable pub set_next : Pages → Slab → Option Slab → Outcome Pages
set_next pages slab value = Pages.read pages slab >>= λ entry. elim entry [
  | Entry.buddy free order ↦ ok pages
  | Entry.slab e ↦
      Pages.write pages slab (Entry.slab (record e { next_partial = index_at pages value }))
]

unfoldable pub set_prev : Pages → Slab → Option Slab → Outcome Pages
set_prev pages slab value = Pages.read pages slab >>= λ entry. elim entry [
  | Entry.buddy free order ↦ ok pages
  | Entry.slab e ↦
      Pages.write pages slab (Entry.slab (record e { prev_partial = index_at pages value }))
]

unfoldable pub is_full : Pages → Slab → Outcome Bool
is_full pages slab = Pages.read pages slab >>= λ entry. elim entry [
  | Entry.buddy free order ↦ ok false
  | Entry.slab e ↦ ok (elim e.free_head [ none ↦ true | some _ ↦ false ])
]

unfoldable pub is_empty : Pages → Slab → Outcome Bool
is_empty pages slab = Pages.read pages slab >>= λ entry. elim entry [
  | Entry.buddy free order ↦ ok false
  | Entry.slab e ↦ ok (e.in_use == 0)
]
