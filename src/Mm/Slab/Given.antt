-- ===== src/Mm/Slab/Given.antt =====
-- src/mm/slab/mod.rs: `free` puts a slot back, and panics on an address that is not one of its own
-- objects in use.
use zheos.Common.{
  ℕ, ◌-◌, ◌*◌, ◌/◌, ◌≤◌, ◌<◌, ◌≡◌, refl, ap, ◌∙◌, some, true, false, List, [], ◌∷◌, arith, ◌==◌,
  ◌/=◌, sub64, ok,
}
use zheos.Mm.Entry.{Entry, SlabEntry, slot_to_raw, slot_new}
use zheos.Mm.Entry.RoundTrip.{slot_from_raw-to_raw}
use zheos.Mm.Pages.Table.{write-ok}
use zheos.Mm.Slab.{Slab, Store, free, give_slot, update, same_slot}
use zheos.Mm.Slab.Chain.{Cut-AddressOf, Cut-InPage, slot_at, head_of, Chain, Chain-update, has}
use zheos.Mm.Slab.Holds.{
  Holds, Elsewhere, with_head, rewritten, rewritten-Holds, to_addr_lem, count-le, head_of-IsBelow,
}

has-head : (i : ℕ) (slots : List ℕ) → has i slots ≡ false → same_slot (head_of slots) i ≡ false
has-head i [] h = refl
has-head i (j ∷ js) h = ground arith

pub slot_new-some : (i count : ℕ) → i < count → count ≤ 512 → slot_new i ≡ some i
unfolding slot_new
slot_new-some i count h c = ground arith

-- The words in the slots after slot `i` was given back.
abbrev pub given : (ℕ → ℕ) → ℕ → ℕ → List ℕ → ℕ → (ℕ → ℕ)
given memory base shift slots i = update memory (slot_at base shift i) (slot_to_raw (head_of slots))

module _ {st : Store} {p : Slab} {e : SlabEntry} {shift count : ℕ} {slots : List ℕ} where
  give_slot-back :
      (i : ℕ)
      → (h : Holds st p e shift count slots) → i < count
      → has i slots ≡ false
      → 0 < e.in_use
      → give_slot st p e (slot_at (p * 4096) shift i)
        ≡ ok (rewritten h (i ∷ slots) (e.in_use - 1) (given st.memory (p * 4096) shift slots i))
  unfolding give_slot
  give_slot-back i h less off used =
      let a = Cut-AddressOf h.cut i less in
      let page : (slot_at (p * 4096) shift i / 4096 == p) ≡ true = ground (arith, a.page) in
      let back = ap (sub64 (slot_at (p * 4096) shift i)) (to_addr_lem h) ∙ a.offset in
      let in_use : (e.in_use /= 0) ≡ true = ground arith in
      let first = has-head i slots off in
      let new = slot_new-some i count less (count-le h.cut) in
      simp (h.class, page, back, a.start, a.index, new, in_use, h.head, first)
        (simp (
          write-ok st.pages p (Entry.slab (with_head e (i ∷ slots) (e.in_use - 1))) h.table
            h.inside))

  -- `free` of an object in use puts its slot ahead of the free ones, and leaves every other entry of
  -- the page table.
  pub free-Holds :
      (i : ℕ)
      → Holds st p e shift count slots
      → i < count
      → has i slots ≡ false
      → 0 < e.in_use
      → (next : Store) × (free st p (slot_at (p * 4096) shift i) ≡ ok next)
        × Holds next p (with_head e (i ∷ slots) (e.in_use - 1)) shift count (i ∷ slots)
        × Elsewhere st next p
  unfolding free
  free-Holds i h less off used =
      let positive = (Cut-InPage h.cut i less).positive in
      let at = slot_at (p * 4096) shift i in
      let self : (at == at) ≡ true = ground arith in
      let next =
        slot_from_raw-to_raw (head_of slots)
          (head_of-IsBelow count slots h.below (count-le h.cut)) in
      let memory = given st.memory (p * 4096) shift slots i in
      let chain : Chain memory (p * 4096) shift (i ∷ slots) = (
        rw self next,
        Chain-update st.memory (p * 4096) shift i (slot_to_raw (head_of slots)) slots positive off
            h.chain,
      ) in
      let (kept, elsewhere) =
        rewritten-Holds h (i ∷ slots) (e.in_use - 1) memory chain (less, h.below) (off, h.distinct)
          (omega (arith, h.counted)) in
      (
        rewritten h (i ∷ slots) (e.in_use - 1) memory,
        simp h.here (give_slot-back i h less off used),
        kept,
        elsewhere,
      )
