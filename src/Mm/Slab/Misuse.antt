-- ===== src/Mm/Slab/Misuse.antt =====
-- src/mm/slab/mod.rs: `free` panics on an address that is not that of an object of the slab in use.
use zheos.Common.{
  ==_iff, ℕ, ◌-◌, ◌*◌, ◌/◌, ◌%◌, ◌^◌, ◌<◌, ◌≡◌, ◌≢◌, refl, ap, ◌∙◌, sym, some, true, false, List,
  ◌∷◌, arith, ◌==◌, ◌/=◌, sub64, panic, ◌⊎◌, inl, inr, ◌<<<◌, subst, Bool-cases, Option-cases,
}
use zheos.Mm.Pfn.{to_addr, from_addr_down}
use zheos.Common.Bits.{bit_and-mask}
use zheos.Mm.Layout.{is_multiple_of_pow2}
use zheos.Mm.Entry.{SlabEntry, slot_new}
use zheos.Mm.Slab.{Slab, Store, free, give_slot, div_pow2, same_slot}
use zheos.Mm.Slab.Chain.{AllBelow, Cut-AddressOf, Cut-InPage, count-pos, slot_at}
use zheos.Mm.Slab.Given.{slot_new-some}
use zheos.Mm.Slab.Holds.{Holds, to_addr_lem, count-le}

-- What is wrong with an address to free: it lies in another page, not at the start of a slot, no
-- object of the slab is in use, or its slot is the one that was freed last.
pub data Misused (p shift in_use : ℕ) (slots : List ℕ) (address : ℕ) : Type 0 where
  other_page : address / 4096 ≢ p → Misused p shift in_use slots address
  inside_object : (address - p * 4096) % 2 ^ shift ≢ 0 → Misused p shift in_use slots address
  none_in_use : in_use ≡ 0 → Misused p shift in_use slots address
  freed_last :
      (i : ℕ) (is : List ℕ)
      → slots ≡ i ∷ is
      → address ≡ slot_at (p * 4096) shift i
      → Misused p shift in_use slots address

module _ {st : Store} {p : Slab} {e : SlabEntry} {shift count : ℕ} {slots : List ℕ}
    (h : Holds st p e shift count slots) where
  -- The tests of `give_slot` in order, with the first that fails.
  page_test :
      (address : ℕ) → (from_addr_down address == p) ≡ false → give_slot st p e address ≡ panic
  unfolding give_slot
  page_test address f = simp (h.class, f)

  offset-start :
      (address : ℕ)
      → (from_addr_down address == p) ≡ true
      → is_multiple_of_pow2 (sub64 address (to_addr p)) (1 <<< shift)
        ≡ ((address - p * 4096) % 2 ^ shift == 0)
  offset-start address f =
      let c = Cut-InPage h.cut 0 (count-pos h.cut) in
      let back : sub64 address (to_addr p) ≡ address - p * 4096 =
        ground (arith, to_addr_lem h, h.cut.room) in
      let mask : sub64 (1 <<< shift) 1 ≡ 2 ^ shift - 1 = omega (arith, c.most, c.positive) in
      rw (back, mask) (ap (λ t. t == 0) (bit_and-mask shift (address - p * 4096)))

  start_test :
      (address : ℕ)
      → (from_addr_down address == p) ≡ true
      → is_multiple_of_pow2 (sub64 address (to_addr p)) (1 <<< shift) ≡ false
      → give_slot st p e address ≡ panic
  unfolding give_slot
  start_test address f g = simp (h.class, f, g)

  later_tests :
      (address : ℕ)
      → (from_addr_down address == p) ≡ true
      → is_multiple_of_pow2 (sub64 address (to_addr p)) (1 <<< shift) ≡ true
      → ((idx : ℕ)
          → slot_new (div_pow2 (sub64 address (to_addr p)) shift) ≡ some idx
          → ((e.in_use /= 0) ≡ false) ⊎ (same_slot e.free_head idx ≡ true))
      → give_slot st p e address ≡ panic
  unfolding give_slot
  later_tests address f g bad =
      elim (Option-cases (slot_new (div_pow2 (sub64 address (to_addr p)) shift))) [
        | inl k ↦ simp (h.class, f, g) (rw k refl)
        | inr (idx, k) ↦ elim (Bool-cases (e.in_use /= 0)) [
          | inr u ↦ simp (h.class, f, g) (rw (k, u) refl)
          | inl u ↦ elim (bad idx k) [
            | inl u' ↦ absurd (ground (arith, u, u'))
            | inr s ↦ simp (h.class, f, g) (rw (k, u, s) refl)
          ]
        ]
      ]

  -- What is left when the address lies in the page and at the start of a slot.
  not_in_use :
      (address : ℕ)
      → Misused p shift e.in_use slots address
      → (from_addr_down address == p) ≡ true
      → is_multiple_of_pow2 (sub64 address (to_addr p)) (1 <<< shift) ≡ true
      → (idx : ℕ) → slot_new (div_pow2 (sub64 address (to_addr p)) shift) ≡ some idx
      → ((e.in_use /= 0) ≡ false) ⊎ (same_slot e.free_head idx ≡ true)
  not_in_use address (other_page ne) f g idx k = absurd (ne ((==_iff (address / 4096) p).0 f))
  not_in_use address (inside_object ne) f g idx k =
      absurd
        (ne ((==_iff ((address - p * 4096) % 2 ^ shift) 0).0 (sym (offset-start address f) ∙ g)))
  not_in_use address (none_in_use z) f g idx k = inl (rw z refl)
  not_in_use address (freed_last i is s at) f g idx k =
      let below : i < count = (subst (λ js. AllBelow count js) s h.below).0 in
      let a = Cut-AddressOf h.cut i below in
      let back : div_pow2 (sub64 address (to_addr p)) shift ≡ i =
        rw (at, to_addr_lem h, a.offset) a.index in
      let found : some i ≡ some idx =
        sym (slot_new-some i count below (count-le h.cut)) ∙ ap slot_new (sym back) ∙ k in
      let same : i ≡ idx = cc found in inr (rw (h.head, s) (ground (arith, same)))

  give_slot-panic :
      (address : ℕ) → Misused p shift e.in_use slots address → give_slot st p e address ≡ panic
  give_slot-panic address bad = elim (Bool-cases (from_addr_down address == p)) [
    | inr f ↦ page_test address f
    | inl f ↦ elim (Bool-cases (is_multiple_of_pow2 (sub64 address (to_addr p)) (1 <<< shift))) [
      | inr g ↦ start_test address f g
      | inl g ↦ later_tests address f g (not_in_use address bad f g)
    ]
  ]

  -- `free` of an address in another page, inside an object, in a slab with none in use or of the slot
  -- that was freed last panics.
  pub free-Misused :
      {address : ℕ} → Misused p shift e.in_use slots address → free st p address ≡ panic
  unfolding free
  free-Misused {address} bad = simp h.here (give_slot-panic address bad)
