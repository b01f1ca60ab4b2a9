-- ===== src/Mm/FreeLists.antt =====
-- src/mm/frames/lists.rs: the free blocks of each order on a doubly linked list, whose links stand in
-- the first two words of the block itself. `words` is that memory: the two words at the address of a
-- page. The blocks on a list are free, so nothing but this module writes there.
pub mod Segment
pub mod Splice
pub mod Lists
pub mod Refine
pub mod Unlink
pub mod Blocks
mod Tests
use zheos.Common.{ℕ, zero, suc, ◌+◌, ◌-◌, ◌^◌, Option, none, some, List}
use zheos.Common.{ltb, ◌==◌, ◌/=◌, if◌then◌else◌, get_or, set, replicate, add64, sub64, ◌<<<◌}
use zheos.Mm.Pfn.{Pfn, to_addr, from_addr_down}

abbrev pub max_order : ℕ
max_order = 10

abbrev pub orders : ℕ
orders = max_order + 1

-- `usize::MAX`
abbrev pub empty_word : ℕ
empty_word = 2 ^ 64 - 1

pub record Links : Type 0 where
  pub prev : Option Pfn
  pub next : Option Pfn

abbrev pub Words : Type 0
Words = Pfn → ℕ × ℕ

pub record FreeLists : Type 0 where
  pub heads : List (Option Pfn)
  pub pages : ℕ
  pub words : Words

unfoldable pub addr_from_pfn : Option Pfn → ℕ
addr_from_pfn none = empty_word
addr_from_pfn (some pfn) = to_addr pfn

unfoldable pub pfn_from_addr : ℕ → Option Pfn
pfn_from_addr addr = if addr /= empty_word then some (from_addr_down addr) else none

unfoldable pub encode : Links → ℕ × ℕ
encode l = (addr_from_pfn l.prev, addr_from_pfn l.next)

unfoldable pub decode : ℕ × ℕ → Links
decode (prev, next) = record { prev = pfn_from_addr prev; next = pfn_from_addr next }

unfoldable pub read_links : Words → Pfn → Links
read_links words pfn = decode (words pfn)

unfoldable pub write_links : Words → Pfn → Links → Words
write_links words pfn links p = if pfn == p then encode links else words p

unfoldable pub empty : Words → FreeLists
empty words = record { heads = replicate orders none; pages = 0; words = words }

-- `*self.heads.get(order)?`
abbrev pub head : FreeLists → ℕ → Option Pfn
head lists order = get_or lists.heads order none

-- The walk of `blocks`; `none` when the fuel runs out.
unfoldable pub count_from : ℕ → Words → Option Pfn → ℕ → Option ℕ
count_from zero words current count = none
count_from (suc fuel) words none count = some count
count_from (suc fuel) words (some pfn) count =
    count_from fuel words (read_links words pfn).next (add64 count 1)

unfoldable pub blocks : ℕ → FreeLists → ℕ → Option ℕ
unfolding count_from
blocks fuel lists order = count_from fuel lists.words (head lists order) 0

-- `links.prev = value`, `links.next = value` at a page that may be there.
unfoldable pub set_prev : Words → Option Pfn → Option Pfn → Words
set_prev words none value = words
set_prev words (some pfn) value =
    let links = read_links words pfn in write_links words pfn (record links { prev = value })

unfoldable pub set_next : Words → Option Pfn → Option Pfn → Words
set_next words none value = words
set_next words (some pfn) value =
    let links = read_links words pfn in write_links words pfn (record links { next = value })

unfoldable pub push : FreeLists → Pfn → ℕ → FreeLists
push lists pfn order =
    let old = head lists order in
    let words = write_links lists.words pfn (record { prev = none; next = old }) in
    if ltb order orders
    then record {
      heads = set lists.heads order (some pfn);
      words = set_prev words old (some pfn);
      pages = add64 lists.pages (1 <<< order);
    }
    else lists

-- No `prev` means that this was the head, so the head moves on.
abbrev pub heads_after : List (Option Pfn) → Links → ℕ → List (Option Pfn)
heads_after heads links order = elim links.prev [
  | some _ ↦ heads
  | none ↦ set heads order links.next
]

unfoldable pub unlink : FreeLists → Pfn → ℕ → FreeLists
unlink lists pfn order =
    let links = read_links lists.words pfn in
    record {
      heads = heads_after lists.heads links order;
      words = set_prev (set_next lists.words links.prev links.next) links.next links.prev;
      pages = sub64 lists.pages (1 <<< order);
    }

unfoldable pub pop : FreeLists → ℕ → Option (Pfn × FreeLists)
pop lists order = elim (head lists order) [
  | none ↦ none
  | some pfn ↦ some (pfn, unlink lists pfn order)
]
