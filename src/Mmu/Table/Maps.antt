-- ===== src/Mmu/Table/Maps.antt =====
-- src/arch/aarch64/mmu/mod.rs: what `map_range` makes of a range, and how the parts of it make up the whole.
use zheos.Common.{
  ℕ, ◌+◌, ◌*◌, ◌/◌, ◌≤◌, ◌<◌, ◌≡◌, ◌≢◌, inl, inr, ap, ◌∙◌, sym, arith, some, ltb, subst, Bool-cases,
}
use zheos.Mmu.Level.{Level, slot_of, size}
use zheos.Mmu.Descriptor.{Descriptor, kind_from_level}
use zheos.Mmu.Table.{
  State, MapError, out_of_memory, unaligned, block_in_the_way, table_in_the_way, get,
}
use zheos.Mmu.Table.Slots.{span}
use zheos.Mmu.Table.Walk.{Places, Covers, Leaf, walk}
use zheos.Mmu.Table.Grows.{Grows, Grows-trans}
use zheos.Mmu.Table.Full.{Full}
use zheos.Mmu.Table.Ends.{Owns, Explained}
use zheos.Mmu.Table.Chunk.{IsChunk, span-same, cut-page}

abbrev pub leaf : Descriptor → ℕ → Level → Descriptor
leaf template addr l = record template { kind = kind_from_level l; address = addr }

-- The walk of `va` ends at a leaf that maps it to itself, with all the rest from the template.
abbrev pub IsMapped : Descriptor → ℕ → Leaf → Type 0
IsMapped template va found =
    (at : Level) × (found ≡ some (leaf template (va / size at * size at) at, at))

pub record Maps {H : Type 0} (Given : H → ℕ → Type 0) (template : Descriptor) (places : Places)
    (s : State H) (t : ℕ) (l : Level) (base stop : ℕ) (u : Unit {0}) (s' : State H) : Type 0 where
  pub places' : Places
  pub grows : Grows s.words places s'.words places' base stop
  pub owns : Owns Given s'.heap places'
  pub mapped : (va : ℕ) → base ≤ va → va < stop → IsMapped template va (walk s'.words t va l)
  pub entries :
      (k : ℕ)
      → (base < stop → base / span l ≡ k)
      → (va : ℕ) → va / span l ≢ k
      → (q : ℕ) (l' : Level) → Covers places q l' va
      → get s'.words q (slot_of l' va) ≡ get s.words q (slot_of l' va)
  pub full : (k : ℕ) → (base < stop → base / span l ≡ k) → Full s.words l t k → Full s'.words l t k

-- A range that one table covers.
pub record InTable (places : Places) (t : ℕ) (l : Level) (base stop : ℕ) : Type 0 where
  pub covers : base < stop → Covers places t l base
  pub within : base < stop → stop ≤ (base / span l + 1) * span l

pub InTable-Covers :
    (places : Places) (t : ℕ) (l : Level) (base stop va : ℕ)
    → InTable places t l base stop
    → base ≤ va
    → va < stop
    → Covers places t l va
InTable-Covers places t l base stop va inside lo hi =
    inside.covers (omega arith)
    ∙ ap (λ k. some (record { level = l; prefix = k }))
        (sym (span-same l base va lo (omega (arith, inside.within (omega arith)))))

pub InTable-rest :
    (places : Places) (t : ℕ) (l : Level) (base stop m : ℕ)
    → InTable places t l base stop
    → base ≤ m
    → InTable places t l m stop
InTable-rest places t l base stop m inside lo = record {
  covers = λ h. InTable-Covers places t l base stop m inside lo h;
  within = λ h.
      let w = inside.within (omega arith) in
      let same = span-same l base m lo (omega arith) in
      subst (λ k. stop ≤ (k + 1) * span l) (sym same) w;
}

module _ {H : Type 0} (Given : H → ℕ → Type 0) (template : Descriptor) (places : Places)
    (s : State H) (t : ℕ) (l : Level) (base stop m : ℕ) (inside : InTable places t l base stop)
    (h : base < stop) (chunk : IsChunk l base stop m) where
  pub rest-prefix : (k : ℕ) → (base < stop → base / span l ≡ k) → m < stop → m / span l ≡ k
  rest-prefix k e more =
      span-same l base m (omega (arith, chunk.begins)) (omega (arith, inside.within h)) ∙ e h

  -- A chunk is mapped and then the rest.
  pub Maps-rest :
      (u v : Unit {0}) (s' s'' : State H)
      → (first : Maps Given template places s t l base m u s')
      → Maps Given template first.places' s' t l m stop v s''
      → Maps Given template places s t l base stop v s''
  Maps-rest u v s' s'' first second = record {
    places' = second.places';
    grows =
        Grows-trans (omega arith) chunk.ends (omega (arith, chunk.begins)) (omega arith) first.grows
          second.grows;
    owns = second.owns;
    mapped = λ va lo hi. elim (Bool-cases (ltb va m)) [
      | inl low ↦
          let (at, e) = first.mapped va lo (ground arith) in
          (
            at,
            second.grows.outside va (inl (ground arith)) t l
                  (first.grows.placed t _ (InTable-Covers places t l base stop va inside lo hi))
                ∙ e,
          )
      | inr high ↦ second.mapped va (ground arith) hi
    ];
    entries = λ k e va ne q l' c.
        second.entries k (rest-prefix k e) va ne q l' (first.grows.placed q _ c)
        ∙ first.entries k (λ b. e h) va ne q l' c;
    full = λ k e f. second.full k (rest-prefix k e) (first.full k (λ b. e h) f);
  }

  pub Explained-chunk :
      (Dry : Type 0) (e : MapError)
      → Explained Dry s.words t l base m e
      → Explained Dry s.words t l base stop e
  Explained-chunk Dry out_of_memory x = x
  Explained-chunk Dry (unaligned a) (inl odd) = inl odd
  Explained-chunk Dry (unaligned a) (inr odd) = inr (cut-page l base stop m chunk odd)
  Explained-chunk Dry (block_in_the_way a at) (d, lo, hi, found) =
      (d, lo, omega (arith, chunk.ends), found)
  Explained-chunk Dry (table_in_the_way a at) (x, lo, hi, found) =
      (x, lo, omega (arith, chunk.ends), found)

  pub Explained-rest :
      (Dry : Type 0) (u : Unit {0}) (s' : State H)
      → Maps Given template places s t l base m u s'
      → (e : MapError) → Explained Dry s'.words t l m stop e
      → Explained Dry s.words t l base stop e
  Explained-rest Dry u s' first out_of_memory x = x
  Explained-rest Dry u s' first (unaligned a) (inl odd) = inr (cut-page l base stop m chunk odd)
  Explained-rest Dry u s' first (unaligned a) (inr odd) = inr odd
  Explained-rest Dry u s' first (block_in_the_way a at) (d, lo, hi, found) = (
    d,
    omega (arith, chunk.begins),
    hi,
    sym (
          first.grows.outside a (inr lo) t l
            (InTable-Covers places t l base stop a inside (omega (arith, chunk.begins)) hi))
        ∙ found,
  )
  Explained-rest Dry u s' first (table_in_the_way a at) (x, lo, hi, (d, leaf_at, found)) = (
    x,
    omega (arith, chunk.begins),
    hi,
    (
      d,
      leaf_at,
      sym (
            first.grows.outside x (inr lo) t l
              (InTable-Covers places t l base stop x inside (omega (arith, chunk.begins)) hi))
          ∙ found,
    ),
  )
