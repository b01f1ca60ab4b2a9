-- ===== src/Mm/Pages/Table.antt =====
-- Reading and writing the page table of src/mm/pages.rs.
use zheos.Common.{◌+◌, ◌-◌, ◌≤◌, ◌<◌, ◌^◌, ◌≡◌, ap, true, ◌↔◌, arith}
use zheos.Common.{◌==◌, if◌then◌else◌, ok, ◌>>=◌}
use zheos.Mm.Pfn.{Pfn}
use zheos.Mm.PageRange
use zheos.Mm.Entry.{Entry, to_u64, from_u64}
use zheos.Mm.Entry.RoundTrip.{IsEntry, from_u64-to_u64}
use zheos.Mm.Pages.{Pages, covers, entry, read, write, update}

-- The arena does not reach past the address space.
abbrev pub IsTable : Pages → Type 0
IsTable pages = pages.base + pages.len < 2 ^ 64

-- The page belongs to the arena.
abbrev pub Has : Pages → Pfn → Type 0
Has pages p = (pages.base ≤ p) × (p < pages.base + pages.len)

contains_iff :
    (pages : Pages) (p : Pfn)
    → IsTable pages
    → (PageRange.contains (covers pages) p ≡ true) ↔ Has pages p
contains_iff pages p t = (ground arith, ground arith)

entry-ok :
    (pages : Pages) (p : Pfn) → IsTable pages → Has pages p → entry pages p ≡ ok (p - pages.base)
unfolding entry
entry-ok pages p t h = rw ((contains_iff pages p t).1 h) (ap ok (omega arith))

pub read-ok :
    (pages : Pages) (p : Pfn)
    → IsTable pages
    → Has pages p
    → read pages p ≡ ok (from_u64 (pages.entries (p - pages.base)))
unfolding read
read-ok pages p t h = rw (entry-ok pages p t h)

-- The table after a write at a page of the arena.
abbrev pub wrote : Pages → Pfn → Entry → Pages
wrote pages p e = record pages { entries = update pages.entries (p - pages.base) (to_u64 e) }

pub write-ok :
    (pages : Pages) (p : Pfn) (e : Entry)
    → IsTable pages
    → Has pages p
    → write pages p e ≡ ok (wrote pages p e)
unfolding write
write-ok pages p e t h = rw (entry-ok pages p t h)

pub read-wrote :
    (pages : Pages) (p q : Pfn) (e : Entry)
    → IsTable pages
    → Has pages p
    → Has pages q
    → IsEntry e
    → read (wrote pages p e) q ≡ (if p == q then ok e else read pages q)
read-wrote pages p q e t hp hq fits =
    ground (arith, read-ok (wrote pages p e) q t hq, read-ok pages q t hq, from_u64-to_u64 e fits)

-- A read after a write of an entry whose fields fit gives that entry at the page written, and what
-- was there at every other page of the arena.
pub read-write :
    (pages : Pages) (p q : Pfn) (e : Entry)
    → IsTable pages
    → Has pages p
    → Has pages q
    → IsEntry e
    → (write pages p e >>= λ pages'. read pages' q) ≡ (if p == q then ok e else read pages q)
read-write pages p q e t hp hq fits =
    rw (write-ok pages p e t hp) (read-wrote pages p q e t hp hq fits)
