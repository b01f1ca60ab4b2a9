-- ===== src/Mmu/Table/Linked.antt =====
-- src/arch/aarch64/mmu/mod.rs: an empty table joins the tree, and an invalid entry then links to it.
use zheos.Common.{
  ℕ, ◌/◌, ◌^◌, ◌<◌, ◌≡◌, ◌≢◌, inl, inr, refl, ap, ◌∙◌, sym, ◌==◌, if◌then◌else◌, arith, some,
  Bool-cases, ==_iff, subst,
}
use zheos.Mmu.Level.{Level, next, slot_of, size}
use zheos.Mmu.Descriptor.{invalid, table, from_u64}
use zheos.Mmu.Table.{Words, State, get, set, link, zero_descriptor}
use zheos.Mmu.Table.Slots.{
  IsPage, span, next-span, slot_of-div, get-set_self, get-set_ne, link-IsEncodable,
}
use zheos.Mmu.Table.Walk.{
  Place, Places, Covers, IsTree, walk, walk-same, walk-follow, follow, follow-child, follow-invalid,
}
use zheos.Mmu.Table.Grows.{Grows}
use zheos.Mmu.Table.Ends.{Owns}
use zheos.Mmu.Table.Fresh.{IsNew}
use zheos.Mmu.Table.Leaf.{set-cases, same-entry, LeadsTo}

abbrev pub add_place : Places → ℕ → Place → Places
add_place places t x q = if t == q then some x else places q

pub add_place_self : (places : Places) (t : ℕ) (x : Place) → add_place places t x t ≡ some x
add_place_self places t x = rw ((==_iff t t).1 refl) refl

pub add_place_other :
    (places : Places) (t : ℕ) (x : Place) (q : ℕ) (y : Place)
    → ((z : Place) → places t ≢ some z)
    → places q ≡ some y
    → add_place places t x q ≡ some y
add_place_other places t x q y unused e = elim (Bool-cases (t == q)) [
  | inl same ↦ absurd (unused y (ap places ((==_iff t q).0 same) ∙ e))
  | inr other ↦ rw other e
]

pub zero-invalid : zero_descriptor.kind ≡ invalid
unfolding from_u64
zero-invalid = refl

pub zero-kind : zero_descriptor.kind ≢ table
unfolding from_u64
zero-kind = λ e. cc

pub slot_small : (l : Level) (va : ℕ) → slot_of l va < 512
slot_small l va = omega (arith, slot_of-div l va)

module _ {H : Type 0} (Given : H → ℕ → Type 0) (places : Places) (s : State H) (c : ℕ)
    (s' : State H) (fresh : IsNew Given places s c s') (tree : IsTree s.words places)
    (x : Place) where
  pub new-IsTree : IsTree s'.words (add_place places c x)
  new-IsTree = record {
    page = λ q y e. elim (Bool-cases (c == q)) [
      | inl same ↦ subst IsPage ((==_iff c q).0 same) fresh.page
      | inr other ↦ tree.page q y (sym (rw other refl) ∙ e)
    ];
    child = λ q l finer va e n k. elim (Bool-cases (c == q)) [
      | inl same ↦
          let here = (==_iff c q).0 same in
          absurd (
            zero-kind (
              ap (λ d. d.kind)
                (sym (fresh.empty (slot_of l va) (slot_small l va))
                  ∙ ap (λ p. get s'.words p (slot_of l va)) here)
              ∙ k))
      | inr other ↦
          let old : Covers places q l va = sym (rw other refl) ∙ e in
          let kept = fresh.kept q _ old (slot_of l va) in
          let (ne, c') =
            subst (LeadsTo places finer va) (sym kept)
              (tree.child q l finer va old n (ap (λ d. d.kind) (sym kept) ∙ k)) in
          (ne, add_place_other places c x _ _ fresh.unused c')
    ];
  }

  pub new-Owns : Owns Given s'.heap (add_place places c x)
  new-Owns q y e = elim (Bool-cases (c == q)) [
    | inl same ↦ subst (Given s'.heap) ((==_iff c q).0 same) fresh.given
    | inr other ↦ fresh.owns q y (sym (rw other refl) ∙ e)
  ]

  pub new-Grows : (addr : ℕ) → Grows s.words places s'.words (add_place places c x) addr addr
  new-Grows addr = record {
    tree = new-IsTree;
    placed = λ q y e. add_place_other places c x q y fresh.unused e;
    linked = λ q l finer va e n k. fresh.kept q _ e (slot_of l va);
    outside = λ va o. walk-same s'.words tree va λ q l e. inl (fresh.kept q _ e (slot_of l va));
  }

-- The entry for `addr` in `t`, which was invalid, links to the empty table `c` of the next level.
module _ {words : Words} {places : Places} (tree : IsTree words places) (t : ℕ) (l finer : Level)
    (addr : ℕ) (covers : Covers places t l addr) (below : next l ≡ some finer)
    (was_invalid : (get words t (slot_of l addr)).kind ≡ invalid) (c : ℕ)
    (child : Covers places c finer addr) (width : c < 2 ^ 48) (not_null : c ≢ 0) (apart : t ≢ c)
    (empty : (i : ℕ) → i < 512 → get words c i ≡ zero_descriptor) where
  abbrev with_link : Words
  with_link = set words t (slot_of l addr) (link c)

  pub link-get :
      (q : ℕ) (l' : Level) (va : ℕ)
      → (q ≡ t) × (l' ≡ l) × (va / size l ≡ addr / size l)
      → get with_link q (slot_of l' va) ≡ link c
  link-get q l' va here =
      same-entry with_link t q l l' addr va here
      ∙ get-set_self words t (slot_of l addr) (link c)
          (link-IsEncodable c (tree.page c _ child) width)

  link-LeadsTo :
      (l' finer' : Level) (va : ℕ)
      → l' ≡ l
      → next l' ≡ some finer'
      → va / size l ≡ addr / size l
      → LeadsTo places finer' va (link c)
  link-LeadsTo l' finer' va level n slot =
      let same : finer ≡ finer' = cc in
      let spans : span finer ≡ size l = next-span l finer below in
      let prefix : addr / span finer ≡ va / span finer =
        ap (λ n. addr / n) spans ∙ sym slot ∙ ap (λ n. va / n) (sym spans) in
      (
        not_null,
        subst (λ f. Covers places c f va) same
            (child ∙ ap (λ k. some (record { level = finer; prefix = k })) prefix),
      )

  link-IsTree : IsTree with_link places
  link-IsTree = record {
    page = tree.page;
    child = λ q l' finer' va e n k. elim (set-cases tree t l addr covers (link c) q l' va e) [
      | inl old ↦
          subst (LeadsTo places finer' va) (sym old)
            (tree.child q l' finer' va e n (ap (λ d. d.kind) (sym old) ∙ k))
      | inr here ↦
          subst (LeadsTo places finer' va) (sym (link-get q l' va here))
            (link-LeadsTo l' finer' va here.1 n here.2)
    ];
  }

  -- Before and after, the walk ends at an invalid entry.
  link-walk :
      (q : ℕ) (l' : Level) (va : ℕ)
      → (q ≡ t) × (l' ≡ l) × (va / size l ≡ addr / size l)
      → walk with_link q va l' ≡ walk words q va l'
  link-walk q l' va here =
      let below' : next l' ≡ some finer = ap next here.1 ∙ below in
      let entry = link-get q l' va here in
      let unchanged =
        get-set_ne words t (slot_of l addr) (link c) c (slot_of finer va) (tree.page t _ covers)
          (tree.page c _ child) (inl apart)
        ∙ empty (slot_of finer va) (slot_small finer va) in
      walk-follow with_link q va l'
      ∙ ap (λ d. follow (λ p f. walk with_link p va f) d l') entry
      ∙ follow-child _ (link c) l' finer refl below' not_null
      ∙ walk-follow with_link c va finer
      ∙ follow-invalid _ _ finer (ap (λ d. d.kind) unchanged ∙ zero-invalid)
      ∙ sym (
          walk-follow words q va l'
          ∙ follow-invalid _ _ l'
              (ap (λ d. d.kind) (same-entry words t q l l' addr va here) ∙ was_invalid))

  pub link-Grows : Grows words places with_link places addr addr
  link-Grows = record {
    tree = link-IsTree;
    placed = λ q x e. e;
    linked = λ q l' finer' va e n k. elim (set-cases tree t l addr covers (link c) q l' va e) [
      | inl old ↦ old
      | inr here ↦
          let kinds : invalid ≡ table =
            sym was_invalid ∙ ap (λ d. d.kind) (sym (same-entry words t q l l' addr va here)) ∙ k in
          cc
    ];
    outside = λ va o. walk-same with_link tree va λ q l' e.
        elim (set-cases tree t l addr covers (link c) q l' va e) [
          | inl old ↦ inl old
          | inr here ↦ inr (link-walk q l' va here)
        ];
  }
