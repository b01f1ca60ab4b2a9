-- ===== src/Mm/Slab/Tests.antt =====
-- Runs of src/mm/slab/mod.rs, and its theorems at them: a page of two slots of 2048 bytes.
use zheos.Common.{◌+◌, ◌-◌, ◌*◌, ◌≡◌, refl, none, some, [], ◌∷◌, arith, ok, panic}
use zheos.Mm.Entry
use zheos.Mm.Entry.{SlabEntry}
use zheos.Mm.Pages
use zheos.Mm.Pages.{Pages}
use zheos.Mm.Pages.Table.{wrote}
use zheos.Mm.Layout.{shifts}
use zheos.Mm.Slab.{Store, update, shift_of, new_entry, init, alloc, free}
use zheos.Mm.Slab.Chain.{Cut, slot_at}
use zheos.Mm.Slab.Holds.{Holds, Elsewhere, with_head}
use zheos.Mm.Slab.Taken.{alloc-Holds}
use zheos.Mm.Slab.Given.{free-Holds}
use zheos.Mm.Slab.Misuse.{freed_last, free-Misused}
use zheos.Mm.Slab.Fresh.{init-Holds, slots_from}
use zheos.Mm.Slab.Cycle.{alloc-free}

abbrev table : Pages
table = record {
  region = record { base = 0x4000_0000; size = 0x1000 };
  base = 0x4_0000;
  len = 4;
  entries = λ _. 0;
}

abbrev blank : Store
blank = record { pages = table; memory = λ _. 0 }

halves : Cut (0x4_0001 * 4096) 2 11
halves = record {
  whole = refl;
  low = omega arith;
  high = omega arith;
  room = omega arith;
  page = refl;
}

shift_is : shift_of 8 ≡ some 11
unfolding shift_of shifts
shift_is = refl

abbrev fresh_entry : SlabEntry
fresh_entry = record {
  class = 8;
  free_head = some 0;
  in_use = 0;
  next_partial = none;
  prev_partial = none;
}

abbrev fresh : Store
fresh = record {
  pages = wrote table 0x4_0001 (Entry.slab fresh_entry);
  memory = update (update (λ _. 0) 0x4000_1000 1) 0x4000_1800 0x3ff;
}

fresh-Holds : Holds fresh 0x4_0001 fresh_entry 11 2 (0 ∷ 1 ∷ [])
unfolding Pages.read Entry.from_u64 Entry.to_u64
fresh-Holds = record {
  table = omega arith;
  inside = omega arith;
  here = refl;
  fits = record {
    class = omega arith;
    free_head = omega arith;
    in_use = omega arith;
    next_partial = tt;
    prev_partial = tt;
  };
  class = shift_is;
  cut = halves;
  head = refl;
  chain = (refl, (refl, tt));
  below = (omega arith, (omega arith, tt));
  distinct = (refl, (refl, tt));
  counted = refl;
}

init-Holds_example :
    (next : Store) × (init blank 0x4_0001 8 ≡ ok (some 0x4_0001, next))
    × Holds next 0x4_0001 (new_entry 8) 11 2 (slots_from 0 2)
    × Elsewhere blank next 0x4_0001
init-Holds_example = init-Holds blank (omega arith) (omega arith) (omega arith) shift_is halves

alloc-Holds_example :
    (next : Store) × (alloc fresh 0x4_0001 ≡ ok (some (slot_at (0x4_0001 * 4096) 11 0), next))
    × Holds next 0x4_0001 (with_head fresh_entry (1 ∷ []) (0 + 1)) 11 2 (1 ∷ [])
    × Elsewhere fresh next 0x4_0001
    × (next.memory ≡ fresh.memory)
alloc-Holds_example = alloc-Holds 0 (1 ∷ []) fresh-Holds

alloc-free_example :
    (taken : Store) × (given : Store) × (alloc fresh 0x4_0001
      ≡ ok (some (slot_at (0x4_0001 * 4096) 11 0), taken))
    × (free taken 0x4_0001 (slot_at (0x4_0001 * 4096) 11 0) ≡ ok given)
    × Holds given 0x4_0001 (with_head fresh_entry (0 ∷ 1 ∷ []) 0) 11 2 (0 ∷ 1 ∷ [])
alloc-free_example = alloc-free fresh-Holds

abbrev used_entry : SlabEntry
used_entry = record {
  class = 8;
  free_head = some 1;
  in_use = 1;
  next_partial = none;
  prev_partial = none;
}

abbrev used : Store
used = record { pages = wrote table 0x4_0001 (Entry.slab used_entry); memory = fresh.memory }

used-Holds : Holds used 0x4_0001 used_entry 11 2 (1 ∷ [])
unfolding Pages.read Entry.from_u64 Entry.to_u64
used-Holds = record {
  table = omega arith;
  inside = omega arith;
  here = refl;
  fits = record {
    class = omega arith;
    free_head = omega arith;
    in_use = omega arith;
    next_partial = tt;
    prev_partial = tt;
  };
  class = shift_is;
  cut = halves;
  head = refl;
  chain = (refl, tt);
  below = (omega arith, tt);
  distinct = (refl, tt);
  counted = refl;
}

free-Holds_example :
    (next : Store) × (free used 0x4_0001 (slot_at (0x4_0001 * 4096) 11 0) ≡ ok next)
    × Holds next 0x4_0001 (with_head used_entry (0 ∷ 1 ∷ []) (1 - 1)) 11 2 (0 ∷ 1 ∷ [])
    × Elsewhere used next 0x4_0001
free-Holds_example = free-Holds 0 used-Holds (omega arith) refl (omega arith)

free-Misused_example : free used 0x4_0001 0x4000_1800 ≡ panic
free-Misused_example = free-Misused used-Holds (freed_last 1 [] refl refl)
