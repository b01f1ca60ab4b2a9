-- ===== src/Mmu/Table/Full.antt =====
-- src/arch/aarch64/mmu/mod.rs: no table of the tree is empty, so a table in the way of a block means that an
-- address of the block is mapped.
use zheos.Common.{
  ℕ, ◌/◌, ◌≡◌, ◌≢◌, refl, ap, ◌∙◌, sym, arith, some, Bool-cases, inl, inr, ==_iff, ◌==◌, subst,
}
use zheos.Mmu.Level.{Level, level1, level2, level3, next, slot_of, size}
use zheos.Mmu.Descriptor.{Descriptor, table}
use zheos.Mmu.Table.{Words, get}
use zheos.Mmu.Table.Slots.{span}
use zheos.Mmu.Table.Walk.{Places, Covers, Leaf, IsTree, walk}
use zheos.Mmu.Table.Leaf.{same-slot_of}

-- The walk ends at a leaf.
abbrev pub IsFound : Leaf → Type 0
IsFound found = (d : Descriptor) × (at : Level) × (found ≡ some (d, at))

-- Some address of the slot of `va` is mapped.
abbrev pub HasLeaf : Words → ℕ → Level → ℕ → Type 0
HasLeaf words t l va = (x : ℕ) × (x / size l ≡ va / size l) × IsFound (walk words t x l)

-- An entry that leads to a table leads to a leaf, and `Below` holds of that table and its place.
abbrev pub EntryFull : (ℕ → ℕ → Type 0) → Words → Level → ℕ → ℕ → Type 0
EntryFull Below words l t va =
    (get words t (slot_of l va)).kind ≡ table
    → HasLeaf words t l va × Below (get words t (slot_of l va)).address (va / size l)

-- No table below the table `t`, which covers the addresses of the prefix `k`, is empty.
abbrev pub Full2 : Words → ℕ → ℕ → Type 0
Full2 words t k = (va : ℕ) → va / span level2 ≡ k → EntryFull (λ c j. Unit {0}) words level2 t va

abbrev pub Full : Words → Level → ℕ → ℕ → Type 0
Full words level3 t k = Unit {0}
Full words level2 t k = Full2 words t k
Full words level1 t k = (va : ℕ) → va / span level1 ≡ k → EntryFull (Full2 words) words level1 t va

pub Full-entry :
    (words : Words) (l finer : Level) (t k va : ℕ)
    → next l ≡ some finer
    → Full words l t k
    → va / span l ≡ k
    → EntryFull (Full words finer) words l t va
Full-entry words level1 level2 t k va n full e = full va e
Full-entry words level2 level3 t k va n full e = full va e
Full-entry words level1 level1 t k va n full e = cc
Full-entry words level1 level3 t k va n full e = cc
Full-entry words level2 level1 t k va n full e = cc
Full-entry words level2 level2 t k va n full e = cc
Full-entry words level3 finer t k va n full e = cc

pub Full-intro :
    (words : Words) (l : Level) (t k : ℕ)
    → ((finer : Level)
        → next l ≡ some finer
        → (va : ℕ) → va / span l ≡ k
        → EntryFull (Full words finer) words l t va)
    → Full words l t k
Full-intro words level1 t k f = f level2 refl
Full-intro words level2 t k f = f level3 refl
Full-intro words level3 t k f = tt

pub slot-span : (l : Level) (a b : ℕ) → a / size l ≡ b / size l → a / span l ≡ b / span l
unfolding size
slot-span level1 a b e = omega arith
slot-span level2 a b e = omega arith
slot-span level3 a b e = omega arith

below-slot : (x : ℕ) → x / span level2 ≡ x / size level1
unfolding size
below-slot x = refl

-- Memory changes, and the entries and walks of the addresses of one slot stay: the table below is still full.
module _ (words words' : Words) (places : Places) (tree : IsTree words places) (S : ℕ → Type 0)
    (entries : (va : ℕ)
      → S va
      → (q : ℕ) (l : Level) → Covers places q l va
      → get words' q (slot_of l va) ≡ get words q (slot_of l va))
    (walks : (va : ℕ)
      → S va
      → (q : ℕ) (l : Level) → Covers places q l va
      → walk words' q va l ≡ walk words q va l) where
  HasLeaf-same :
      (q : ℕ) (l : Level) (va : ℕ)
      → ((x : ℕ) → x / size l ≡ va / size l → S x)
      → Covers places q l va
      → HasLeaf words q l va
      → HasLeaf words' q l va
  HasLeaf-same q l va kept covers (x, e, (d, at, found)) = (
    x,
    e,
    (
      d,
      at,
      walks x (kept x e) q l
            (covers ∙ ap (λ k. some (record { level = l; prefix = k })) (sym (slot-span l x va e)))
          ∙ found,
    ),
  )

  Full2-same :
      (c k : ℕ)
      → ((va : ℕ) → va / span level2 ≡ k → S va × Covers places c level2 va)
      → Full2 words c k
      → Full2 words' c k
  Full2-same c k kept full va e kind =
      let (s, covers) = kept va e in
      let same = entries va s c level2 covers in
      let (leaf, below) = full va e (ap (λ d. d.kind) (sym same) ∙ kind) in
      (HasLeaf-same c level2 va (λ x f. (kept x (slot-span level2 x va f ∙ e)).0) covers leaf, tt)

  -- The table below an entry covers every address of the slot.
  child-same :
      (q va x : ℕ)
      → x / size level1 ≡ va / size level1
      → Covers places q level1 va
      → (get words q (slot_of level1 va)).kind ≡ table
      → Covers places (get words q (slot_of level1 va)).address level2 x
  child-same q va x e covers kind =
      let entry = ap (λ i. get words q i) (same-slot_of level1 x va e) in
      let here =
        covers
        ∙ ap (λ k. some (record { level = level1; prefix = k })) (sym (slot-span level1 x va e)) in
      subst (λ d. Covers places d.address level2 x) entry
        (tree.child q level1 level2 x here refl (ap (λ d. d.kind) entry ∙ kind)).1

  -- The entry for `va` of a table, with what is below it.
  pub EntryFull-same :
      (q : ℕ) (l finer : Level) (va : ℕ)
      → next l ≡ some finer
      → ((x : ℕ) → x / size l ≡ va / size l → S x)
      → Covers places q l va
      → EntryFull (Full words finer) words l q va
      → EntryFull (Full words' finer) words' l q va
  EntryFull-same q level1 level2 va n kept covers full kind =
      let same = entries va (kept va refl) q level1 covers in
      let old : (get words q (slot_of level1 va)).kind ≡ table =
        ap (λ d. d.kind) (sym same) ∙ kind in
      let (leaf, below) = full old in
      (
        HasLeaf-same q level1 va kept covers leaf,
        subst (λ c. Full2 words' c (va / size level1)) (ap (λ d. d.address) (sym same))
            (Full2-same (get words q (slot_of level1 va)).address (va / size level1)
              (λ x e. (
                kept x (sym (below-slot x) ∙ e),
                child-same q va x (sym (below-slot x) ∙ e) covers old,
              ))
              below),
      )
  EntryFull-same q level2 level3 va n kept covers full kind =
      let same = entries va (kept va refl) q level2 covers in
      (HasLeaf-same q level2 va kept covers (full (ap (λ d. d.kind) (sym same) ∙ kind)).0, tt)
  EntryFull-same q level1 level1 va n kept covers full kind = cc
  EntryFull-same q level1 level3 va n kept covers full kind = cc
  EntryFull-same q level2 level1 va n kept covers full kind = cc
  EntryFull-same q level2 level2 va n kept covers full kind = cc
  EntryFull-same q level3 finer va n kept covers full kind = cc

-- One slot of a table changes, and what it leads to is full: the table is full as it was.
pub Full-slot :
    (words words' : Words) (places : Places) (tree : IsTree words places) (t : ℕ) (l : Level)
    (addr k : ℕ)
    → addr / span l ≡ k
    → Covers places t l addr
    → ((va : ℕ)
        → va / size l ≢ addr / size l
        → (q : ℕ) (l' : Level) → Covers places q l' va
        → get words' q (slot_of l' va) ≡ get words q (slot_of l' va))
    → ((va : ℕ)
        → va / size l ≢ addr / size l
        → (q : ℕ) (l' : Level) → Covers places q l' va
        → walk words' q va l' ≡ walk words q va l')
    → ((finer : Level)
        → next l ≡ some finer
        → (va : ℕ) → va / size l ≡ addr / size l
        → EntryFull (Full words' finer) words' l t va)
    → Full words l t k
    → Full words' l t k
Full-slot words words' places tree t l addr k prefix covers entries walks here full =
    Full-intro words' l t k λ finer n va e. elim (Bool-cases (va / size l == addr / size l)) [
      | inl same ↦ here finer n va ((==_iff (va / size l) (addr / size l)).0 same)
      | inr other ↦
          EntryFull-same words words' places tree (λ x. x / size l ≢ addr / size l) entries walks t
            l finer va n (λ x f g. ground (arith, sym f ∙ g))
            (covers ∙ ap (λ j. some (record { level = l; prefix = j })) (prefix ∙ sym e))
            (Full-entry words l finer t k va n full e)
    ]
