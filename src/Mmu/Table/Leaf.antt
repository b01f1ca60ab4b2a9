-- ===== src/Mmu/Table/Leaf.antt =====
-- src/arch/aarch64/mmu/mod.rs: one entry of a tree of tables is written.
use zheos.Common.{
  ℕ, ◌+◌, ◌*◌, ◌/◌, ◌%◌, ◌≤◌, ◌<◌, ◌≡◌, ◌≢◌, ◌⊎◌, inl, inr, ap, ap₂, ◌∙◌, sym, ◌==◌, arith, some,
  Bool-cases, ==_iff, subst,
}
use zheos.Mmu.Level.{Level, level1, level2, level3, next, slot_of, size}
use zheos.Mmu.Descriptor.{Descriptor, table, kind_from_level}
use zheos.Mmu.Word.{IsEncodable}
use zheos.Mmu.Table.{Words, get, set}
use zheos.Mmu.Table.Slots.{span, slot_of-div, slot_of-same, get-set_self, get-set_ne}
use zheos.Mmu.Table.Walk.{Places, Covers, IsTree, walk-same}
use zheos.Mmu.Table.Grows.{Grows}

-- Two tables at one address have one place.
same_place :
    (l l' : Level) (a va : ℕ) {t : ℕ} (places : Places)
    → Covers places t l a
    → Covers places t l' va
    → (l' ≡ l) × (a / span l ≡ va / span l)
same_place l l' a va places c c' =
    let level : l' ≡ l = cc (c, c') in
    let prefix : a / span l ≡ va / span l' = cc (c, c') in
    (level, subst (λ x. a / span l ≡ va / span x) level prefix)

-- Addresses of one slot have one entry.
pub same-slot_of : (l : Level) (a b : ℕ) → a / size l ≡ b / size l → slot_of l a ≡ slot_of l b
same-slot_of l a b e = slot_of-div l a ∙ ap (λ n. n % 512) e ∙ sym (slot_of-div l b)

-- The entries of one slot of a table.
pub same-entry :
    (words : Words) (t q : ℕ) (l l' : Level) (addr va : ℕ)
    → (q ≡ t) × (l' ≡ l) × (va / size l ≡ addr / size l)
    → get words q (slot_of l' va) ≡ get words t (slot_of l addr)
same-entry words t q l l' addr va (here, level, slot) =
    ap₂ (λ x y. get words x y) here (ap (λ x. slot_of x va) level ∙ same-slot_of l va addr slot)

pub slot-bounds :
    (l : Level) (va addr : ℕ)
    → va / size l ≡ addr / size l
    → (addr / size l * size l ≤ va) × (va < addr / size l * size l + size l)
unfolding size
slot-bounds level1 va addr e = omega arith
slot-bounds level2 va addr e = omega arith
slot-bounds level3 va addr e = omega arith

-- Where an entry that leads further leads to.
abbrev pub LeadsTo : Places → Level → ℕ → Descriptor → Type 0
LeadsTo places finer va e = (e.address ≢ 0) × Covers places e.address finer va

-- A write of the entry for `addr` in a table reaches only that table's entry for the addresses of one slot.
module _ {words : Words} {places : Places} (tree : IsTree words places) (t : ℕ) (l : Level)
    (addr : ℕ) (covers : Covers places t l addr) (d : Descriptor) where
  pub set-cases :
      (q : ℕ) (l' : Level) (va : ℕ)
      → Covers places q l' va
      → (get (set words t (slot_of l addr) d) q (slot_of l' va) ≡ get words q (slot_of l' va))
        ⊎ ((q ≡ t) × (l' ≡ l) × (va / size l ≡ addr / size l))
  set-cases q l' va c = elim (Bool-cases (t == q)) [
    | inr apart ↦ inl (
        get-set_ne words t (slot_of l addr) d q (slot_of l' va) (tree.page t _ covers)
          (tree.page q _ c) (inl (ground arith)))
    | inl e ↦ elim (Bool-cases (slot_of l addr % 512 == slot_of l' va % 512)) [
      | inr apart ↦ inl (
          get-set_ne words t (slot_of l addr) d q (slot_of l' va) (tree.page t _ covers)
            (tree.page q _ c) (inr (ground arith)))
      | inl slot ↦
          let here = (==_iff t q).0 e in
          let (level, prefix) =
            same_place l l' addr va places (subst (λ x. Covers places x l addr) here covers) c in
          let slots = (==_iff (slot_of l addr % 512) (slot_of l' va % 512)).0 slot in
          let slots' = subst (λ x. slot_of l addr % 512 ≡ slot_of x va % 512) level slots in
          inr (sym here, level, sym (slot_of-same l addr va prefix slots'))
    ]
  ]

pub leaf-stops : (l finer : Level) → next l ≡ some finer → kind_from_level l ≢ table
leaf-stops level1 finer e = λ k. cc
leaf-stops level2 finer e = λ k. cc
leaf-stops level3 finer e = cc

-- A leaf that takes no table's place.
module _ {words : Words} {places : Places} (tree : IsTree words places) (t : ℕ) (l : Level)
    (addr : ℕ) (covers : Covers places t l addr) (d : Descriptor) (fits : IsEncodable d)
    (is_leaf : d.kind ≡ kind_from_level l)
    (no_table : (finer : Level)
      → next l ≡ some finer
      → (get words t (slot_of l addr)).kind ≢ table) where
  abbrev with_leaf : Words
  with_leaf = set words t (slot_of l addr) d

  leaf-get :
      (q : ℕ) (l' : Level) (va : ℕ)
      → (q ≡ t) × (l' ≡ l) × (va / size l ≡ addr / size l)
      → get with_leaf q (slot_of l' va) ≡ d
  leaf-get q l' va here =
      same-entry with_leaf t q l l' addr va here ∙ get-set_self words t (slot_of l addr) d fits

  pub leaf-IsTree : IsTree with_leaf places
  leaf-IsTree = record {
    page = tree.page;
    child = λ q l' finer va c n k. elim (set-cases tree t l addr covers d q l' va c) [
      | inl old ↦
          subst (LeadsTo places finer va) (sym old)
            (tree.child q l' finer va c n (ap (λ e. e.kind) (sym old) ∙ k))
      | inr here ↦ absurd (
          leaf-stops l finer (ap next (sym (here.1)) ∙ n)
            (sym is_leaf ∙ ap (λ e. e.kind) (sym (leaf-get q l' va here)) ∙ k))
    ];
  }

  pub leaf-Grows :
      Grows words places with_leaf places (addr / size l * size l) (addr / size l * size l + size l)
  leaf-Grows = record {
    tree = leaf-IsTree;
    placed = λ q x e. e;
    linked = λ q l' finer va c n k. elim (set-cases tree t l addr covers d q l' va c) [
      | inl old ↦ old
      | inr here ↦ absurd (
          no_table finer (ap next (sym (here.1)) ∙ n)
            (ap (λ e. e.kind) (sym (same-entry words t q l l' addr va here)) ∙ k))
    ];
    outside = λ va o. walk-same with_leaf tree va λ q l' c.
        elim (set-cases tree t l addr covers d q l' va c) [
          | inl old ↦ inl old
          | inr here ↦
              let inside = slot-bounds l va addr here.2 in
              elim o [ inl low ↦ absurd (omega arith) | inr high ↦ absurd (omega arith) ]
        ];
  }
