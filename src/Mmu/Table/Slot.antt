-- ===== src/Mmu/Table/Slot.antt =====
-- src/arch/aarch64/mmu/mod.rs, `map_range`: a chunk that fills its slot becomes a leaf.
use zheos.Common.{
  ℕ, ◌+◌, ◌*◌, ◌/◌, ◌%◌, ◌^◌, ◌≤◌, ◌<◌, ◌≡◌, ◌≢◌, inl, inr, refl, ap, ◌∙◌, sym, arith, some,
  Bool-cases, true, false, ◌&&◌, is_some,
}
use zheos.Mmu.Level.{Level, level1, level2, level3, next, slot_of, size, is_aligned}
use zheos.Mmu.Descriptor.{Descriptor, Kind, invalid, block, table, kind_from_level}
use zheos.Mmu.Word.{IsEncodable, IsIndex}
use zheos.Mmu.Walk.{is_aligned-multiple}
use zheos.Mmu.Table.{Alloc, State, get, set, is_table, map_leaf, slot_end}
use zheos.Mmu.Table.Slots.{span, slot_end_lem, get-set_self}
use zheos.Mmu.Table.Walk.{Places, Covers, IsTree, Leaf, walk, walk-follow, follow}
use zheos.Mmu.Table.Grows.{Grows, Grows-refl, Grows-trans}
use zheos.Mmu.Table.Leaf.{leaf-Grows, leaf-stops, set-cases, same-slot_of, slot-bounds}
use zheos.Mmu.Table.Full.{Full, Full-entry, Full-slot, IsFound, slot-span}
use zheos.Mmu.Table.Ends.{Ends, IsDry, Owns, Explained}
use zheos.Mmu.Table.Chunk.{IsChunk, slot-other, slot-same, aligned_slot}
use zheos.Mmu.Table.Maps.{leaf, IsMapped, Maps, InTable}

follow-leaf :
    (g : ℕ → Level → Leaf) (d : Descriptor) (l : Level)
    → d.kind ≡ kind_from_level l
    → follow g d l ≡ some (d, l)
unfolding follow
follow-leaf g d level1 e = ground arith
follow-leaf g d level2 e = ground arith
follow-leaf g d level3 e = ground arith

no_table_there :
    (l finer : Level) (k : Kind)
    → (is_some (next l) && is_table k) ≡ false
    → next l ≡ some finer
    → k ≢ table
no_table_there l finer k e n = λ t. ground arith

table_there :
    (l : Level) (k : Kind)
    → (is_some (next l) && is_table k) ≡ true
    → (finer : Level) × (next l ≡ some finer) × (k ≡ table)
table_there level1 table e = (level2, refl, refl)
table_there level2 table e = (level3, refl, refl)
table_there level3 k e = cc
table_there level1 invalid e = cc
table_there level1 block e = cc
table_there level2 invalid e = cc
table_there level2 block e = cc

size-page : (l : Level) (addr : ℕ) → addr % size l ≡ 0 → addr % 4096 ≡ 0
unfolding size
size-page level1 addr h = omega arith
size-page level2 addr h = omega arith
size-page level3 addr h = omega arith

module _ {H : Type 0} (alloc_layout : Alloc H) (Given : H → ℕ → Type 0) (template : Descriptor)
    (index : IsIndex template.attr_idx) (places : Places) (s : State H)
    (tree : IsTree s.words places) (owns : Owns Given s.heap places) (t : ℕ) (l : Level)
    (base stop m : ℕ) (inside : InTable places t l base stop) (h : base < stop)
    (bound : stop ≤ 2 ^ 39) (chunk : IsChunk l base stop m) (aligned : is_aligned l base ≡ true)
    (whole : m ≡ slot_end l base) where
  leaf-IsEncodable : IsEncodable (leaf template base l)
  leaf-IsEncodable = record {
    index = index;
    page = size-page l base ((is_aligned-multiple l base).0 aligned);
    width = omega arith;
  }

  slot-ends : m ≡ base + size l
  slot-ends =
      let at = slot_end_lem l base (omega arith) in
      let begin = aligned_slot l base aligned in omega arith

  abbrev after : State H
  after = record s { words = set s.words t (slot_of l base) (leaf template base l) }

  leaf-IsMapped : (va : ℕ) → base ≤ va → va < m → IsMapped template va (walk after.words t va l)
  leaf-IsMapped va lo hi =
      let slot = slot-same l base va lo (omega (arith, chunk.in_slot)) in
      let begin : base ≡ va / size l * size l =
        sym (aligned_slot l base aligned) ∙ ap (λ k. k * size l) (sym slot) in
      let entry =
        ap (λ i. get after.words t i) (same-slot_of l va base slot)
        ∙ get-set_self s.words t (slot_of l base) (leaf template base l) leaf-IsEncodable in
      (
        l,
        walk-follow after.words t va l
            ∙ ap (λ d. follow (λ p f. walk after.words p va f) d l) entry
            ∙ follow-leaf _ (leaf template base l) l refl
            ∙ ap (λ a. some (leaf template a l, l)) begin,
      )

  leaf-entry :
      (va : ℕ)
      → va / size l ≡ base / size l
      → get after.words t (slot_of l va) ≡ leaf template base l
  leaf-entry va slot =
      ap (λ i. get after.words t i) (same-slot_of l va base slot)
      ∙ get-set_self s.words t (slot_of l base) (leaf template base l) leaf-IsEncodable

  leaf-entries :
      (va : ℕ)
      → va / size l ≢ base / size l
      → (q : ℕ) (l' : Level) → Covers places q l' va
      → get after.words q (slot_of l' va) ≡ get s.words q (slot_of l' va)
  leaf-entries va ne q l' c =
      elim (set-cases tree t l base (inside.covers h) (leaf template base l) q l' va c) [
        | inl old ↦ old
        | inr here ↦ absurd (ne here.2)
      ]

  leaf-Grows' :
      ((finer : Level) → next l ≡ some finer → (get s.words t (slot_of l base)).kind ≢ table)
      → Grows s.words places after.words places base m
  leaf-Grows' no_table =
      let begin = aligned_slot l base aligned in
      let covers = inside.covers h in
      Grows-trans (omega arith) (omega (arith, slot-ends)) (omega (arith, slot-ends))
        (omega (arith, slot-ends)) (Grows-refl base m tree)
        (leaf-Grows tree t l base covers (leaf template base l) leaf-IsEncodable refl no_table)

  -- The table that is in the way leads to an address of the slot that is mapped.
  taken-IsFound :
      (k : ℕ)
      → base / span l ≡ k
      → Full s.words l t k
      → (is_some (next l) && is_table (get s.words t (slot_of l base)).kind) ≡ true
      → (x : ℕ) × (base ≤ x) × (x < m) × IsFound (walk s.words t x l)
  taken-IsFound k prefix full taken =
      let (finer, n, kind) = table_there l (get s.words t (slot_of l base)).kind taken in
      let (x, slot, found) = (Full-entry s.words l finer t k base n full prefix kind).0 in
      let begin = aligned_slot l base aligned in
      let bounds = slot-bounds l x base slot in (x, omega arith, omega (arith, slot-ends), found)

  leaf-Maps :
      ((finer : Level) → next l ≡ some finer → (get s.words t (slot_of l base)).kind ≢ table)
      → Maps Given template places s t l base m tt after
  leaf-Maps no_table =
      let begin = aligned_slot l base aligned in
      let covers = inside.covers h in
      record {
        places' = places;
        grows = leaf-Grows' no_table;
        owns = owns;
        mapped = leaf-IsMapped;
        entries = λ j e va ne q l' c.
            leaf-entries va (λ slot. ne (slot-span l va base slot ∙ e chunk.begins)) q l' c;
        full = λ j e f.
            Full-slot s.words after.words places tree t l base j (e chunk.begins) covers
              leaf-entries
              (λ va ne q l' c.
                (leaf-Grows' no_table).outside va (slot-other l base stop m va chunk ne) q l' c)
              (λ finer n va slot kind.
                absurd (leaf-stops l finer n (sym (ap (λ d. d.kind) (leaf-entry va slot)) ∙ kind)))
              f;
      }

  pub map_leaf-Maps :
      (k : ℕ)
      → base / span l ≡ k
      → Full s.words l t k
      → Ends
          (Maps Given template places s t l base m)
          (λ z. Explained (IsDry alloc_layout z) s.words t l base m)
          (map_leaf alloc_layout s t base template l)
  unfolding map_leaf
  map_leaf-Maps k prefix full =
      elim (Bool-cases (is_some (next l) && is_table (get s.words t (slot_of l base)).kind)) [
        | inl taken ↦ rw (taken, Ends, map_leaf) (taken-IsFound k prefix full taken)
        | inr free ↦
            rw (free, Ends, map_leaf) (leaf-Maps (λ finer n. no_table_there l finer _ free n))
      ]
