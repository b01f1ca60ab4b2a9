-- ===== src/Mmu/Table/Child.antt =====
-- src/arch/aarch64/mmu/mod.rs, `child_table`: the table below an entry, which is in the tree and linked.
use zheos.Common.{
  subst, ℕ, ◌/◌, false, ◌≡◌, ◌≢◌, inl, inr, refl, ap, ◌∙◌, sym, ◌==◌, arith, Option, some, none,
}
use zheos.Mmu.Level.{Level, next, slot_of, size}
use zheos.Mmu.Descriptor.{Descriptor, invalid, block, table}
use zheos.Mmu.Table.{
  Alloc, State, MapError, out_of_memory, block_in_the_way, get, link, set, child_table, new,
  page_layout, done,
}
use zheos.Mmu.Table.Slots.{span, next-span, get-set_ne}
use zheos.Mmu.Table.Walk.{Place, Places, Covers, IsTree, walk, walk-follow, follow, Kind-cases}
use zheos.Mmu.Table.Grows.{Grows, Grows-refl, Grows-trans}
use zheos.Mmu.Table.Leaf.{set-cases}
use zheos.Mmu.Table.Full.{Full, Full-entry, Full-intro}
use zheos.Mmu.Table.Ends.{Ends, Ends-bind, IsAllocator, Owns}
use zheos.Mmu.Table.Fresh.{IsNew, new-IsNew}
use zheos.Mmu.Table.Linked.{
  zero-kind, slot_small, add_place, add_place_self, add_place_other, new-Grows, new-IsTree,
  new-Owns, link-Grows, link-get,
}

-- `c` is the table below the entry for `addr` in `t`.
pub record HasChild {H : Type 0} (Given : H → ℕ → Type 0) (places : Places) (s : State H) (t : ℕ)
    (l finer : Level) (addr c : ℕ) (s' : State H) : Type 0 where
  pub places' : Places
  pub grows : Grows s.words places s'.words places' addr addr
  pub owns : Owns Given s'.heap places'
  pub covers : Covers places' c finer addr
  pub kind : (get s'.words t (slot_of l addr)).kind ≡ table
  pub address : (get s'.words t (slot_of l addr)).address ≡ c
  pub not_null : c ≢ 0
  pub entries :
      (va : ℕ)
      → va / size l ≢ addr / size l
      → (q : ℕ) (l' : Level) → Covers places q l' va
      → get s'.words q (slot_of l' va) ≡ get s.words q (slot_of l' va)
  pub full :
      (k : ℕ) → addr / span l ≡ k → Full s.words l t k → Full s'.words finer c (addr / span finer)

ne-eqb : (n : ℕ) → n ≢ 0 → (n == 0) ≡ false
ne-eqb n h = ground arith

follow-block :
    (g : ℕ → Level → Option (Descriptor × Level)) (d : Descriptor) (l : Level)
    → d.kind ≡ block
    → follow g d l ≡ some (d, l)
unfolding follow
follow-block g d l e = ground arith

module _ {H : Type 0} (alloc_layout : Alloc H) (Given : H → ℕ → Type 0)
    (lawful : IsAllocator alloc_layout Given) (E : State H → MapError → Type 0) (s : State H)
    (places : Places) (tree : IsTree s.words places) (owns : Owns Given s.heap places) (t : ℕ)
    (l finer : Level) (addr : ℕ) (covers : Covers places t l addr)
    (below : next l ≡ some finer) where
  old-HasChild :
      (get s.words t (slot_of l addr)).kind ≡ table
      → HasChild Given places s t l finer addr (get s.words t (slot_of l addr)).address s
  old-HasChild k = record {
    places' = places;
    grows = Grows-refl addr addr tree;
    owns = owns;
    covers = (tree.child t l finer addr covers below k).1;
    kind = k;
    address = refl;
    not_null = (tree.child t l finer addr covers below k).0;
    entries = λ va ne q l' c. refl;
    full = λ j e f.
        subst (λ n. Full s.words finer (get s.words t (slot_of l addr)).address n)
          (ap (λ n. addr / n) (sym (next-span l finer below)))
          (Full-entry s.words l finer t j addr below f e k).1;
  }

  abbrev link_state : ℕ → State H → State H
  link_state c s' = record s' { words = set s'.words t (slot_of l addr) (link c) }

  new-HasChild :
      (get s.words t (slot_of l addr)).kind ≡ invalid
      → (c : ℕ) (s' : State H) → IsNew Given places s c s'
      → HasChild Given places s t l finer addr c (link_state c s')
  new-HasChild k c s' fresh =
      let x : Place = record { level = finer; prefix = addr / span finer } in
      let places' = add_place places c x in
      let tree' = new-IsTree Given places s c s' fresh tree x in
      let here : Covers places' t l addr = add_place_other places c x t _ fresh.unused covers in
      let child : Covers places' c finer addr = add_place_self places c x in
      let still : (get s'.words t (slot_of l addr)).kind ≡ invalid =
        ap (λ d. d.kind) (fresh.kept t _ covers (slot_of l addr)) ∙ k in
      let apart : t ≢ c = λ same. fresh.unused _ (ap places (sym same) ∙ covers) in
      let entry =
        link-get tree' t l finer addr here below still c child fresh.width fresh.not_null apart
          fresh.empty t l addr (refl, refl, refl) in
      record {
        places' = places';
        grows =
            Grows-trans (omega arith) (omega arith) (omega arith) (omega arith)
              (new-Grows Given places s c s' fresh tree x addr)
              (link-Grows tree' t l finer addr here below still c child fresh.width fresh.not_null
                apart fresh.empty);
        owns = new-Owns Given places s c s' fresh tree x;
        covers = child;
        kind = ap (λ d. d.kind) entry;
        address = ap (λ d. d.address) entry;
        not_null = fresh.not_null;
        entries = λ va ne q l' e.
            elim (set-cases tree' t l addr here (link c) q l' va
              (add_place_other places c x q _ fresh.unused e)) [
                | inl old ↦ old ∙ fresh.kept q _ e (slot_of l' va)
                | inr same ↦ absurd (ne same.2)
              ];
        full = λ j e f.
            Full-intro (link_state c s').words finer c (addr / span finer) λ f' n va e' kind.
              absurd (
                zero-kind (
                  ap (λ d. d.kind)
                    (sym (
                      get-set_ne s'.words t (slot_of l addr) (link c) c (slot_of finer va)
                        (tree'.page t _ here) (tree'.page c _ child) (inl apart)
                      ∙ fresh.empty (slot_of finer va) (slot_small finer va)))
                  ∙ kind));
      }

  pub child_table-HasChild :
      ((alloc_layout page_layout s.heap s.words).0 ≡ none
        → E
            (record {
              heap = (alloc_layout page_layout s.heap s.words).1;
              words = (alloc_layout page_layout s.heap s.words).2;
            })
            out_of_memory)
      → ((d : Descriptor) → walk s.words t addr l ≡ some (d, l) → E s (block_in_the_way addr l))
      → Ends (HasChild Given places s t l finer addr) E (child_table alloc_layout s t addr l)
  unfolding child_table
  child_table-HasChild oom blocked = elim (Kind-cases (get s.words t (slot_of l addr)).kind) [
    | inl k ↦
        let used : (get s.words t (slot_of l addr)).address == 0 ≡ false =
          ne-eqb _ (tree.child t l finer addr covers below k).0 in
        rw (k, used, Ends, child_table) (old-HasChild k)
    | inr (inl k) ↦
        rw (k, Ends, child_table)
          (Ends-bind (IsNew Given places s) (HasChild Given places s t l finer addr) E
            (new alloc_layout s) (λ c s'. done c (link_state c s'))
            (new-IsNew alloc_layout Given lawful E s places oom tree owns) (new-HasChild k))
    | inr (inr k) ↦
        rw (k, Ends, child_table)
          (blocked (get s.words t (slot_of l addr))
            (walk-follow s.words t addr l ∙ follow-block _ (get s.words t (slot_of l addr)) l k))
  ]
