-- ===== src/Mmu/Table/Range.antt =====
-- src/arch/aarch64/mmu/mod.rs, `map_range`: each pass maps its chunk, and the loop the whole range.
use zheos.Common.{
  refl, ◌/◌, ℕ, zero, suc, ◌^◌, ◌≤◌, ◌<◌, ◌≡◌, inl, inr, arith, some, Bool, Bool-cases, true, ◌&&◌,
  ◌==◌, min, ltb, Option-cases, ==_iff, sub64,
}
use zheos.Mm.Region
use zheos.Mmu.Level.{Level, next, is_aligned}
use zheos.Mmu.Descriptor.{Descriptor}
use zheos.Mmu.Word.{IsIndex}
use zheos.Mmu.Table.{Alloc, State, Result, map_chunk, map_from, slot_end, child_table}
use zheos.Mmu.Table.Walk.{Places, IsTree}
use zheos.Mmu.Table.Grows.{Grows-refl}
use zheos.Mmu.Table.Slots.{span}
use zheos.Mmu.Table.Full.{Full}
use zheos.Mmu.Table.Ends.{Ends, Ends-bind, Ends-weaken, IsAllocator, IsDry, Owns, Explained}
use zheos.Mmu.Table.Child.{HasChild, child_table-HasChild}
use zheos.Mmu.Table.Chunk.{
  IsChunk, min-IsChunk, bottom_page, region_end, Enough, Enough-deeper, Enough-rest,
}
use zheos.Mmu.Table.Maps.{
  Maps, InTable, InTable-rest, Maps-rest, rest-prefix, Explained-chunk, Explained-rest,
}
use zheos.Mmu.Table.Slot.{map_leaf-Maps}
use zheos.Mmu.Table.Deeper.{child-InTable, Maps-child, Explained-child}

both-true : (a b : Bool) → (a && b) ≡ true → (a ≡ true) × (b ≡ true)
both-true a b e = (ground arith, ground arith)

module _ {H : Type 0} (alloc_layout : Alloc H) (Given : H → ℕ → Type 0)
    (lawful : IsAllocator alloc_layout Given) (template : Descriptor)
    (index : IsIndex template.attr_idx) where
  -- What `map_range` does with any range within a table.
  abbrev MapsRange :
      (State H → ℕ → ℕ → ℕ → Descriptor → Level → Result (State H) (Unit {0})) → ℕ → Type 0
  MapsRange run fuel =
      (places : Places) (s : State H) (t : ℕ) (l : Level) (base stop : ℕ)
      → (k : ℕ) → (base < stop → base / span l ≡ k)
      → Full s.words l t k
      → IsTree s.words places
      → Owns Given s.heap places
      → InTable places t l base stop
      → stop ≤ 2 ^ 39
      → Enough fuel l base stop
      → Ends (Maps Given template places s t l base stop)
          (λ z. Explained (IsDry alloc_layout z) s.words t l base stop)
          (run s t base stop template l)

  module _ (fuel : ℕ)
      (deeper : State H → ℕ → ℕ → ℕ → Descriptor → Level → Result (State H) (Unit {0}))
      (maps : MapsRange deeper fuel) (places : Places) (s : State H) (t : ℕ) (l : Level)
      (base stop m : ℕ) (k : ℕ) (prefix : base < stop → base / span l ≡ k)
      (full : Full s.words l t k) (tree : IsTree s.words places) (owns : Owns Given s.heap places)
      (inside : InTable places t l base stop) (bound : stop ≤ 2 ^ 39) (h : base < stop)
      (chunk : IsChunk l base stop m) (enough : Enough (suc fuel) l base stop) where
    abbrev call_deeper : Level → ℕ → State H → Result (State H) (Unit {0})
    call_deeper finer c s' =
        deeper s' c base (Region.end (record { base = base; size = sub64 m base })) template finer

    deeper-Maps :
        (finer : Level)
        → next l ≡ some finer
        → (c : ℕ) (s' : State H) → HasChild Given places s t l finer base c s'
        → Ends
            (Maps Given template places s t l base m)
            (λ z. Explained (IsDry alloc_layout z) s.words t l base m)
            (call_deeper finer c s')
    deeper-Maps finer n c s' child =
        let end = region_end base m (omega (arith, chunk.begins)) (omega (arith, chunk.ends)) in
        rw end (
          Ends-weaken (Maps Given template child.places' s' c finer base m)
            (Maps Given template places s t l base m)
            (λ z. Explained (IsDry alloc_layout z) s'.words c finer base m)
            (λ z. Explained (IsDry alloc_layout z) s.words t l base m)
            (deeper s' c base m template finer)
            (maps child.places' s' c finer base m (base / span finer) (λ b. refl)
              (child.full k (prefix h) full) child.grows.tree child.owns
              (child-InTable Given template places s t l finer base stop m inside h chunk n c s'
                child)
              (omega (arith, chunk.ends)) (Enough-deeper fuel l finer base stop m n h chunk enough))
            (λ u s'' below.
              Maps-child Given template places s t l finer base stop m inside h chunk n c s' child u
                s'' below tree)
            (λ z.
              Explained-child Given template places s t l finer base stop m inside h chunk n c s'
                child (IsDry alloc_layout z)))

    pub map_chunk-Maps :
        Ends
          (Maps Given template places s t l base m)
          (λ z. Explained (IsDry alloc_layout z) s.words t l base m)
          (map_chunk alloc_layout deeper s t base m template l)
    unfolding map_chunk
    map_chunk-Maps = elim (Bool-cases (is_aligned l base && m == slot_end l base)) [
      | inl e ↦
          let (aligned, whole) = both-true _ _ e in
          rw e (
            map_leaf-Maps alloc_layout Given template index places s tree owns t l base stop m
              inside h bound chunk aligned ((==_iff _ _).0 whole) k (prefix h) full)
      | inr e ↦ elim (Option-cases (next l)) [
        | inl n ↦ rw (e, n, Ends, map_chunk) (bottom_page l base stop m n (omega arith) chunk e)
        | inr (finer, n) ↦
            rw (e, n, Ends, map_chunk)
              (Ends-bind (HasChild Given places s t l finer base)
                (Maps Given template places s t l base m)
                (λ z. Explained (IsDry alloc_layout z) s.words t l base m)
                (child_table alloc_layout s t base l) (call_deeper finer)
                (child_table-HasChild alloc_layout Given lawful
                  (λ z. Explained (IsDry alloc_layout z) s.words t l base m) s places tree owns t l
                  finer base (inside.covers h) n (λ dry. (s.heap, s.words, dry, refl, refl))
                  (λ d found. (d, omega arith, chunk.begins, found)))
                (deeper-Maps finer n))
      ]
    ]

  pub map_from-Maps : (fuel : ℕ) → MapsRange (map_from alloc_layout fuel) fuel
  unfolding map_from
  map_from-Maps zero places s t l base stop k prefix full tree owns inside bound enough =
      absurd (omega (arith, enough.some_left))
  map_from-Maps (suc fuel) places s t l base stop k prefix full tree owns inside bound enough =
      elim (Bool-cases (ltb base stop)) [
        | inr finished ↦
            rw (finished, Ends, map_from)
              (record {
                places' = places;
                grows = Grows-refl base stop tree;
                owns = owns;
                mapped = λ va lo hi. absurd (ground arith);
                entries = λ j e va ne q l' c. refl;
                full = λ j e f. f;
              })
        | inl more ↦
            let h : base < stop = ground arith in
            let m = min (slot_end l base) stop in
            let chunk = min-IsChunk l base stop h bound in
            rw (more, Ends, map_from)
              (Ends-bind (Maps Given template places s t l base m)
                (Maps Given template places s t l base stop)
                (λ z. Explained (IsDry alloc_layout z) s.words t l base stop)
                (map_chunk alloc_layout (map_from alloc_layout fuel) s t base m template l)
                (λ u s'. map_from alloc_layout fuel s' t m stop template l)
                (Ends-weaken (Maps Given template places s t l base m)
                  (Maps Given template places s t l base m)
                  (λ z. Explained (IsDry alloc_layout z) s.words t l base m)
                  (λ z. Explained (IsDry alloc_layout z) s.words t l base stop)
                  (map_chunk alloc_layout (map_from alloc_layout fuel) s t base m template l)
                  (map_chunk-Maps fuel (map_from alloc_layout fuel) (map_from-Maps fuel) places s t
                    l base stop m k prefix full tree owns inside bound h chunk enough)
                  (λ u s' x. x)
                  (λ z.
                    Explained-chunk Given template places s t l base stop m inside h chunk
                      (IsDry alloc_layout z)))
                (λ u s' first.
                  Ends-weaken (Maps Given template first.places' s' t l m stop)
                    (Maps Given template places s t l base stop)
                    (λ z. Explained (IsDry alloc_layout z) s'.words t l m stop)
                    (λ z. Explained (IsDry alloc_layout z) s.words t l base stop)
                    (map_from alloc_layout fuel s' t m stop template l)
                    (map_from-Maps fuel first.places' s' t l m stop k
                      (rest-prefix Given template places s t l base stop m inside h chunk k prefix)
                      (first.full k (λ b. prefix h) full) first.grows.tree first.owns
                      (InTable-rest first.places' t l base stop m
                        (record {
                          covers = λ b. first.grows.placed t _ (inside.covers b);
                          within = inside.within;
                        })
                        (omega (arith, chunk.begins)))
                      bound (Enough-rest fuel l base stop m h chunk enough))
                    (λ v s'' second.
                      Maps-rest Given template places s t l base stop m inside h chunk u v s' s''
                        first second)
                    (λ z.
                      Explained-rest Given template places s t l base stop m inside h chunk
                        (IsDry alloc_layout z) u s' first)))
      ]
