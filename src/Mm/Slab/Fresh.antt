-- ===== src/Mm/Slab/Fresh.antt =====
-- src/mm/slab/mod.rs: `init` makes a page a slab with every slot free.
use zheos.Common.{
  ℕ, zero, suc, ◌+◌, ◌*◌, ◌≤◌, ◌<◌, ◌≡◌, ◌≢◌, refl, subst, ap, ◌∙◌, sym, none, some, true, false,
  List, [], ◌∷◌, length, arith, ◌==◌, ltb, if◌then◌else◌, add64, sub64, u8, ok,
}
use zheos.Mm.Pfn.{to_addr}
use zheos.Mm.Entry.{Entry, slot_to_raw, slot_from_raw, slot_new}
use zheos.Mm.Entry.RoundTrip.{Fits, slot_from_raw-to_raw}
use zheos.Mm.Pages.Table.{IsTable, Has, wrote, write-ok, read-wrote}
use zheos.Mm.Slab.{Slab, Store, shift_of, link_from, link_slots, new_entry, init, update, mul_pow2}
use zheos.Mm.Slab.Chain.{
  Cut, Cut-InPage, Cut-AddressOf, slot_at, slot_at-ne, head_of, Chain, has, Distinct, AllBelow,
  count-div, count-pos,
}
use zheos.Mm.Slab.Holds.{Holds, Elsewhere, count-le, head_of-IsBelow}
use zheos.Mm.Slab.Given.{slot_new-some}

-- The slots from `i` on.
abbrev pub slots_from : ℕ → ℕ → List ℕ
slots_from i zero = []
slots_from i (suc left) = i ∷ slots_from (i + 1) left

slots_from-AllBelow : (i left count : ℕ) → i + left ≤ count → AllBelow count (slots_from i left)
slots_from-AllBelow i zero count h = tt
slots_from-AllBelow i (suc left) count h =
    (omega arith, slots_from-AllBelow (i + 1) left count (omega arith))

has-slots_from : (j i left : ℕ) → j < i → has j (slots_from i left) ≡ false
has-slots_from j i zero h = refl
has-slots_from j i (suc left) h = ground (arith, has-slots_from j (i + 1) left (omega arith))

slots_from-Distinct : (i left : ℕ) → Distinct (slots_from i left)
slots_from-Distinct i zero = tt
slots_from-Distinct i (suc left) =
    (has-slots_from i (i + 1) left (omega arith), slots_from-Distinct (i + 1) left)

length-slots_from : (i left : ℕ) → length (slots_from i left) ≡ left
length-slots_from i zero = refl
length-slots_from i (suc left) = ap suc (length-slots_from (i + 1) left)

-- What the loop stores in slot `i`.
next_slot-head :
    (i left count : ℕ)
    → i + suc left ≡ count
    → count ≤ 512
    → (if ltb i (sub64 count 1) then slot_new (i + 1) else none) ≡ head_of (slots_from (i + 1) left)
next_slot-head i zero count h few =
    let last : ltb i (sub64 count 1) ≡ false = ground (arith) in rw last refl
next_slot-head i (suc left) count h few =
    let more : ltb i (sub64 count 1) ≡ true = ground (arith) in
    rw more (slot_new-some (i + 1) count (omega arith) few)

module _ {base count shift : ℕ} (c : Cut base count shift) where
  -- What the store to slot `i` leaves at an address.
  step :
      (i address v : ℕ) (memory : ℕ → ℕ)
      → i < count
      → update memory (add64 base (mul_pow2 i shift)) v address
        ≡ update memory (slot_at base shift i) v address
  step i address v memory h = ap (λ a. update memory a v address) (Cut-AddressOf c i h).address

  link_from-before :
      (left i j : ℕ) (memory : ℕ → ℕ)
      → j < i
      → i + left ≡ count
      → link_from left i count base shift memory (slot_at base shift j)
        ≡ memory (slot_at base shift j)
  unfolding link_from
  link_from-before zero i j memory less h = refl
  link_from-before (suc left) i j memory less h =
      let next = if ltb i (sub64 count 1) then slot_new (i + 1) else none in
      let rest =
        link_from-before left (i + 1) j
          (update memory (add64 base (mul_pow2 i shift)) (slot_to_raw next)) (omega arith)
          (omega arith) in
      let positive = (Cut-InPage c i (omega arith)).positive in
      let ne : j ≢ i = omega arith in
      let apart : (slot_at base shift j == slot_at base shift i) ≡ false =
        ground (arith, slot_at-ne base shift positive ne) in
      rest ∙ step i (slot_at base shift j) (slot_to_raw next) memory (omega arith) ∙ rw apart refl

  link_from-Chain :
      (left i : ℕ) (memory : ℕ → ℕ)
      → i + left ≡ count
      → Chain (link_from left i count base shift memory) base shift (slots_from i left)
  unfolding link_from
  link_from-Chain zero i memory h = tt
  link_from-Chain (suc left) i memory h =
      let next = if ltb i (sub64 count 1) then slot_new (i + 1) else none in
      let start = update memory (add64 base (mul_pow2 i shift)) (slot_to_raw next) in
      let kept = link_from-before left (i + 1) i start (omega arith) (omega arith) in
      let self : (slot_at base shift i == slot_at base shift i) ≡ true = ground arith in
      let stored : start (slot_at base shift i) ≡ slot_to_raw next =
        step i (slot_at base shift i) (slot_to_raw next) memory (omega arith) ∙ rw self refl in
      let head = next_slot-head i left count (omega arith) (count-le c) in
      let below =
        head_of-IsBelow count (slots_from (i + 1) left)
          (slots_from-AllBelow (i + 1) left count (omega arith)) (count-le c) in
      (
        ap slot_from_raw (kept ∙ stored ∙ ap slot_to_raw head)
            ∙ slot_from_raw-to_raw (head_of (slots_from (i + 1) left)) below,
        link_from-Chain left (i + 1) start (omega arith),
      )

new_entry-Fits : (class : ℕ) → class < 9 → Fits (new_entry class)
unfolding new_entry
new_entry-Fits class h = record {
  class = omega arith;
  free_head = omega arith;
  in_use = omega arith;
  next_partial = tt;
  prev_partial = tt;
}

link_slots-Chain :
    (p : Slab) {count shift : ℕ} (memory : ℕ → ℕ)
    → Cut (p * 4096) count shift
    → Chain (link_slots p shift memory) (p * 4096) shift (slots_from 0 count)
unfolding link_slots
link_slots-Chain p {count} {shift} memory c =
    let base : to_addr p ≡ p * 4096 = omega (arith, c.room) in
    let same : link_slots p shift memory ≡ link_from count 0 count (p * 4096) shift memory =
      ap (λ (n : ℕ). link_from n 0 n (to_addr p) shift memory) (count-div c)
      ∙ ap (λ (b : ℕ). link_from count 0 count b shift memory) base in
    subst (λ m. Chain m (p * 4096) shift (slots_from 0 count)) (sym same)
      (link_from-Chain c count 0 memory (omega arith))

slots_from-head : (count : ℕ) → 0 < count → slot_new 0 ≡ head_of (slots_from 0 count)
unfolding slot_new
slots_from-head zero h = absurd (omega arith)
slots_from-head (suc count) h = refl

-- `init` of a page of the page table, with the class of its shift, makes it a slab whose slots are all
-- free, in order, and leaves every other entry.
pub init-Holds :
    (st : Store) {p class shift count : ℕ}
    → IsTable st.pages
    → Has st.pages p
    → class < 9
    → shift_of class ≡ some shift
    → Cut (p * 4096) count shift
    → (next : Store) × (init st p class ≡ ok (some p, next))
      × Holds next p (new_entry class) shift count (slots_from 0 count)
      × Elsewhere st next p
unfolding init new_entry
init-Holds st {p} {class} {shift} {count} table inside nine shift_is cut =
    let fits = new_entry-Fits class nine in
    let self : (p == p) ≡ true = ground arith in
    let e = new_entry class in
    let base : to_addr p ≡ p * 4096 = omega (arith, cut.room) in
    let memory = link_slots p shift st.memory in
    let byte : u8 class ≡ class = omega arith in
    (
      record { pages = wrote st.pages p (Entry.slab e); memory = memory },
      rw (init, shift_is) (simp (write-ok st.pages p (Entry.slab e) table inside)),
      record {
        table = table;
        inside = inside;
        here = read-wrote st.pages p p (Entry.slab e) table inside inside fits ∙ rw self refl;
        fits = fits;
        class = ap shift_of byte ∙ shift_is;
        cut = cut;
        head = slots_from-head count (count-pos cut);
        chain = link_slots-Chain p st.memory cut;
        below = slots_from-AllBelow 0 count count (omega arith);
        distinct = slots_from-Distinct 0 count;
        counted = omega (arith, length-slots_from 0 count);
      },
      λ q inside' ne.
          let other : (p == q) ≡ false = ground arith in
          read-wrote st.pages p q (Entry.slab e) table inside inside' fits ∙ rw other refl,
    )
