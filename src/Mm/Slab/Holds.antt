-- ===== src/Mm/Slab/Holds.antt =====
-- src/mm/slab/mod.rs: a slab as the list of its free slots, and what `alloc` and `free` do to it.
use zheos.Common.{
  ℕ, ◌+◌, ◌*◌, ◌≤◌, ◌≡◌, ◌≢◌, refl, ◌∙◌, some, true, false, List, [], ◌∷◌, length, arith, ◌==◌, ok,
}
use zheos.Mm.Pfn.{to_addr}
use zheos.Mm.Entry.{Entry, SlabEntry}
use zheos.Mm.Entry.RoundTrip.{Fits, IsBelow}
use zheos.Mm.Pages
use zheos.Mm.Pages.{Pages}
use zheos.Mm.Pages.Table.{IsTable, Has, wrote, read-wrote}
use zheos.Mm.Slab.{Slab, Store, shift_of}
use zheos.Mm.Slab.Chain.{Cut, Cut-InPage, head_of, Chain, Distinct, AllBelow, count-pos}

-- The page `p` is a slab of `count` slots of `2 ^ shift` bytes, with the free slots `slots`.
pub record Holds (st : Store) (p : Slab) (e : SlabEntry) (shift count : ℕ) (slots : List ℕ)
    : Type 0 where
  pub table : IsTable st.pages
  pub inside : Has st.pages p
  pub here : Pages.read st.pages p ≡ ok (Entry.slab e)
  pub fits : Fits e
  pub class : shift_of e.class ≡ some shift
  pub cut : Cut (p * 4096) count shift
  pub head : e.free_head ≡ head_of slots
  pub chain : Chain st.memory (p * 4096) shift slots
  pub below : AllBelow count slots
  pub distinct : Distinct slots
  pub counted : e.in_use + length slots ≡ count

-- The entry behind a slot that was taken or given.
abbrev pub with_head : SlabEntry → List ℕ → ℕ → SlabEntry
with_head e slots in_use = record e { free_head = head_of slots; in_use = in_use }

-- Every entry but that of the page stays.
abbrev pub Elsewhere : Store → Store → Slab → Type 0
Elsewhere st next p =
    (q : Slab) → Has st.pages q → p ≢ q → Pages.read next.pages q ≡ Pages.read st.pages q

pub head_of-IsBelow :
    (count : ℕ) (slots : List ℕ)
    → AllBelow count slots
    → count ≤ 512
    → IsBelow 0x3ff (head_of slots)
head_of-IsBelow count [] h c = tt
head_of-IsBelow count (i ∷ is) h c = omega arith

with_head-Fits :
    (e : SlabEntry) (slots : List ℕ) (in_use count : ℕ)
    → Fits e
    → AllBelow count slots
    → count ≤ 512
    → in_use ≤ count
    → Fits (with_head e slots in_use)
with_head-Fits e slots in_use count f h c u = record {
  class = f.class;
  free_head = head_of-IsBelow count slots h c;
  in_use = omega arith;
  next_partial = f.next_partial;
  prev_partial = f.prev_partial;
}

pub count-le : {base count shift : ℕ} → Cut base count shift → count ≤ 512
count-le {base} {count} {shift} c = (Cut-InPage c 0 (count-pos c)).few

module _ {st : Store} {p : Slab} {e : SlabEntry} {shift count : ℕ} {slots : List ℕ}
    (h : Holds st p e shift count slots) where
  pub to_addr_lem : to_addr p ≡ p * 4096
  to_addr_lem = omega (arith, h.cut.room)

  -- What a write of the entry leaves, with the words in the slots changed to `memory`.
  abbrev pub rewritten : List ℕ → ℕ → (ℕ → ℕ) → Store
  rewritten slots' in_use memory = record {
    pages = wrote st.pages p (Entry.slab (with_head e slots' in_use));
    memory = memory;
  }

  pub rewritten-Holds :
      (slots' : List ℕ) (in_use : ℕ) (memory : ℕ → ℕ)
      → Chain memory (p * 4096) shift slots'
      → AllBelow count slots'
      → Distinct slots'
      → in_use + length slots' ≡ count
      → Holds (rewritten slots' in_use memory) p (with_head e slots' in_use) shift count slots'
        × Elsewhere st (rewritten slots' in_use memory) p
  rewritten-Holds slots' in_use memory c b d n =
      let fits = with_head-Fits e slots' in_use count h.fits b (count-le h.cut) (omega arith) in
      let self : (p == p) ≡ true = ground arith in
      (
        record {
          table = h.table;
          inside = h.inside;
          here =
              read-wrote st.pages p p (Entry.slab (with_head e slots' in_use)) h.table h.inside
                h.inside fits
              ∙ rw self refl;
          fits = fits;
          class = h.class;
          cut = h.cut;
          head = refl;
          chain = c;
          below = b;
          distinct = d;
          counted = n;
        },
        λ q inside ne.
            let other : (p == q) ≡ false = ground arith in
            read-wrote st.pages p q (Entry.slab (with_head e slots' in_use)) h.table h.inside inside
              fits
            ∙ rw other refl,
      )
