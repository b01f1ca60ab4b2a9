-- ===== src/Mm/Slab/Taken.antt =====
-- src/mm/slab/mod.rs: `alloc` takes the first free slot of a slab, and `init` makes all slots free.
use zheos.Common.{
  ℕ, ◌+◌, ◌*◌, ◌≡◌, refl, ap, ◌∙◌, none, some, false, List, [], ◌∷◌, arith, add64, u16, leb, ok,
}
use zheos.Mm.Entry.{Entry, SlabEntry}
use zheos.Mm.Pages.Table.{write-ok}
use zheos.Mm.Slab.{Slab, Store, alloc, take_slot, div_pow2, mul_pow2}
use zheos.Mm.Slab.Chain.{Cut-AddressOf, slot_at, count-div}
use zheos.Mm.Slab.Holds.{
  Holds, Elsewhere, with_head, rewritten, rewritten-Holds, to_addr_lem, count-le,
}

module _ {st : Store} {p : Slab} {e : SlabEntry} {shift count : ℕ} where
  take_slot-first :
      (i : ℕ) (is : List ℕ)
      → (h : Holds st p e shift count (i ∷ is))
      → take_slot st p e i shift
        ≡ ok (some (slot_at (p * 4096) shift i), rewritten h is (e.in_use + 1) st.memory)
  unfolding take_slot
  take_slot-first i is h =
      let a = Cut-AddressOf h.cut i h.below.0 in
      let inside : leb (div_pow2 4096 shift) i ≡ false =
        ground (arith, count-div h.cut, h.below.0) in
      let at = ap (λ b. add64 b (mul_pow2 i shift)) (to_addr_lem h) ∙ a.address in
      let used : u16 (e.in_use + 1) ≡ e.in_use + 1 = omega (arith, h.counted, count-le h.cut) in
      simp (
        inside,
        at,
        h.chain.0,
        used,
        write-ok st.pages p (Entry.slab (with_head e is (e.in_use + 1))) h.table h.inside,
      )

  -- `alloc` on a slab with a free slot gives the address of the first one, which is free no more, and
  -- leaves every other slot, every word in the slots and every other entry of the page table.
  pub alloc-Holds :
      (i : ℕ) (is : List ℕ)
      → Holds st p e shift count (i ∷ is)
      → (next : Store) × (alloc st p ≡ ok (some (slot_at (p * 4096) shift i), next))
        × Holds next p (with_head e is (e.in_use + 1)) shift count is
        × Elsewhere st next p
        × (next.memory ≡ st.memory)
  unfolding alloc
  alloc-Holds i is h =
      let (kept, elsewhere) =
        rewritten-Holds h is (e.in_use + 1) st.memory h.chain.1 h.below.1 h.distinct.1
          (omega (arith, h.counted)) in
      (
        rewritten h is (e.in_use + 1) st.memory,
        simp (h.here, h.head) (rw h.class (take_slot-first i is h)),
        kept,
        elsewhere,
        refl,
      )

  -- `alloc` on a slab with no free slot gives none and changes nothing.
  pub alloc_full : Holds st p e shift count [] → alloc st p ≡ ok (none, st)
  unfolding alloc
  alloc_full h = simp (h.here, h.head)
