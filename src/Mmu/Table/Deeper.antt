-- ===== src/Mmu/Table/Deeper.antt =====
-- src/arch/aarch64/mmu/mod.rs, `map_range`: a part of a slot is mapped by the table below it.
use zheos.Common.{
  ℕ, ◌+◌, ◌*◌, ◌/◌, ◌≤◌, ◌<◌, ◌≡◌, ◌≢◌, ◌⊎◌, inl, inr, refl, ap, ◌∙◌, sym, subst, arith, some,
  Bool-cases, ltb,
}
use zheos.Mmu.Level.{Level, next, slot_of, size}
use zheos.Mmu.Descriptor.{table}
use zheos.Mmu.Descriptor.{Descriptor}
use zheos.Mmu.Table.{
  Words, State, MapError, out_of_memory, unaligned, block_in_the_way, table_in_the_way, get,
}
use zheos.Mmu.Table.Slots.{span, next-span}
use zheos.Mmu.Table.Walk.{Places, walk, walk-follow, follow-child, Covers, IsTree}
use zheos.Mmu.Table.Grows.{Grows, Grows-trans}
use zheos.Mmu.Table.Leaf.{same-slot_of}
use zheos.Mmu.Table.Full.{Full, Full-slot, slot-span}
use zheos.Mmu.Table.Ends.{Explained}
use zheos.Mmu.Table.Child.{HasChild}
use zheos.Mmu.Table.Chunk.{IsChunk, slot-same, slot-other}
use zheos.Mmu.Table.Maps.{IsMapped, Maps, InTable, InTable-Covers}

-- The walk goes on in the table below.
walk-child :
    (words : Words) (t c va : ℕ) (l finer : Level)
    → next l ≡ some finer
    → (get words t (slot_of l va)).kind ≡ table
    → (get words t (slot_of l va)).address ≡ c
    → c ≢ 0
    → walk words t va l ≡ walk words c va finer
walk-child words t c va l finer n k a ne =
    walk-follow words t va l
    ∙ follow-child _ (get words t (slot_of l va)) l finer k n (λ z. ne (sym a ∙ z))
    ∙ ap (λ p. walk words p va finer) a

side-of : (va base : ℕ) → (va < base) ⊎ (base ≤ va)
side-of va base = elim (Bool-cases (ltb va base)) [
  | inl low ↦ inl (ground arith)
  | inr high ↦ inr (ground arith)
]

module _ {H : Type 0} (Given : H → ℕ → Type 0) (template : Descriptor) (places : Places)
    (s : State H) (t : ℕ) (l finer : Level) (base stop m : ℕ)
    (inside : InTable places t l base stop) (h : base < stop) (chunk : IsChunk l base stop m)
    (below : next l ≡ some finer) (c : ℕ) (s' : State H)
    (child : HasChild Given places s t l finer base c s') where
  pub child-InTable : InTable child.places' c finer base m
  child-InTable = record {
    covers = λ _. child.covers;
    within = λ _. subst (λ n. m ≤ (base / n + 1) * n) (sym (next-span l finer below)) chunk.in_slot;
  }

  -- The entry for an address of the chunk, in any memory that keeps the links.
  child-entry :
      (va : ℕ)
      → base ≤ va
      → va < m
      → get s'.words t (slot_of l va) ≡ get s'.words t (slot_of l base)
  child-entry va lo hi =
      ap (λ i. get s'.words t i)
        (same-slot_of l va base (slot-same l base va lo (omega (arith, chunk.in_slot))))

  child-walk : (va : ℕ) → base ≤ va → va < m → walk s'.words t va l ≡ walk s'.words c va finer
  child-walk va lo hi =
      let entry = child-entry va lo hi in
      walk-child s'.words t c va l finer below (ap (λ d. d.kind) entry ∙ child.kind)
        (ap (λ d. d.address) entry ∙ child.address) child.not_null

  chunk-Covers : (va : ℕ) → base ≤ va → va < m → Covers places t l va
  chunk-Covers va lo hi =
      InTable-Covers places t l base stop va inside lo (omega (arith, chunk.ends))

  other-outside : (va : ℕ) → va / size l ≢ base / size l → (va < base) ⊎ (m ≤ va)
  other-outside va other = slot-other l base stop m va chunk other

  module _ (u : Unit {0}) (s'' : State H)
      (maps : Maps Given template child.places' s' c finer base m u s'') where
    -- The link to the table below is still there.
    child-linked :
        (va : ℕ)
        → va / size l ≡ base / size l
        → ((get s''.words t (slot_of l va)).kind ≡ table)
          × ((get s''.words t (slot_of l va)).address ≡ c)
    child-linked va slot =
        let entry = ap (λ i. get s'.words t i) (same-slot_of l va base slot) in
        let kind = ap (λ d. d.kind) entry ∙ child.kind in
        let covers =
          inside.covers h
          ∙ ap (λ k. some (record { level = l; prefix = k })) (sym (slot-span l va base slot)) in
        let kept = maps.grows.linked t l finer va (child.grows.placed t _ covers) below kind in
        (
          ap (λ d. d.kind) kept ∙ kind,
          ap (λ d. d.address) kept ∙ ap (λ d. d.address) entry ∙ child.address,
        )

    child-mapped : (va : ℕ) → base ≤ va → va < m → IsMapped template va (walk s''.words t va l)
    child-mapped va lo hi =
        let (kind, address) =
          child-linked va (slot-same l base va lo (omega (arith, chunk.in_slot))) in
        let (at, e) = maps.mapped va lo hi in
        (at, walk-child s''.words t c va l finer below kind address child.not_null ∙ e)

    child-Grows : Grows s.words places s''.words maps.places' base m
    child-Grows =
        Grows-trans (omega arith) (omega (arith, chunk.begins)) (omega arith) (omega arith)
          child.grows maps.grows

    child-entries :
        (va : ℕ)
        → va / size l ≢ base / size l
        → (q : ℕ) (l' : Level) → Covers places q l' va
        → get s''.words q (slot_of l' va) ≡ get s.words q (slot_of l' va)
    child-entries va ne q l' covers =
        maps.entries (base / span finer) (λ b. refl) va
          (subst (λ n. va / n ≢ base / n) (sym (next-span l finer below)) ne) q l'
          (child.grows.placed q _ covers)
        ∙ child.entries va ne q l' covers

    child-Full :
        (tree : IsTree s.words places) (k : ℕ)
        → base / span l ≡ k
        → Full s.words l t k
        → Full s''.words l t k
    child-Full tree k prefix full =
        let below_full = maps.full (base / span finer) (λ b. refl) (child.full k prefix full) in
        Full-slot s.words s''.words places tree t l base k prefix (inside.covers h) child-entries
          (λ va ne q l' covers. child-Grows.outside va (other-outside va ne) q l' covers)
          (λ f n va slot kind.
            let same : finer ≡ f = cc in
            let (at, found) = child-mapped base (omega arith) chunk.begins in
            (
              (base, sym slot, (_, at, found)),
              subst (λ g. Full s''.words g (get s''.words t (slot_of l va)).address (va / size l))
                  same
                  (subst (λ p. Full s''.words finer p (va / size l)) (sym (child-linked va slot).1)
                    (subst (Full s''.words finer c)
                      (ap (λ n. base / n) (next-span l finer below) ∙ sym slot) below_full)),
            ))
          full

    pub Maps-child : IsTree s.words places → Maps Given template places s t l base m u s''
    Maps-child tree = record {
      places' = maps.places';
      grows = child-Grows;
      owns = maps.owns;
      mapped = child-mapped;
      entries = λ k e va ne q l' covers.
          child-entries va (λ slot. ne (slot-span l va base slot ∙ e chunk.begins)) q l' covers;
      full = λ k e full. child-Full tree k (e chunk.begins) full;
    }

  -- The table below has the walks that there were before it.
  start-walk : (va : ℕ) → base ≤ va → va < m → walk s'.words c va finer ≡ walk s.words t va l
  start-walk va lo hi =
      sym (child-walk va lo hi)
      ∙ child.grows.outside va (side-of va base) t l (chunk-Covers va lo hi)

  pub Explained-child :
      (Dry : Type 0) (e : MapError)
      → Explained Dry s'.words c finer base m e
      → Explained Dry s.words t l base m e
  Explained-child Dry out_of_memory x = x
  Explained-child Dry (unaligned a) x = x
  Explained-child Dry (block_in_the_way a at) (d, lo, hi, found) =
      (d, lo, hi, sym (start-walk a lo hi) ∙ found)
  Explained-child Dry (table_in_the_way a at) (x, lo, hi, (d, leaf_at, found)) =
      (x, lo, hi, (d, leaf_at, sym (start-walk x lo hi) ∙ found))
