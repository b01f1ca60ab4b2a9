-- ===== src/Mmu/Table/Fresh.antt =====
-- src/arch/aarch64/mmu/mod.rs, `Table::new`: an empty table in a page of its own.
use zheos.Common.{
  ℕ, ◌+◌, ◌*◌, ◌^◌, ◌<◌, ◌≡◌, ◌≢◌, inl, inr, ap, ◌∙◌, ◌==◌, arith, none, some, Option-cases,
  Bool-cases, ==_iff, bit_and,
}
use zheos.Common.Bits.{bit_and-mask}
use zheos.Mmu.Descriptor.{from_u64}
use zheos.Mmu.Table.{
  Words, Alloc, State, MapError, out_of_memory, new, get, slots, zero_descriptor, page_layout,
}
use zheos.Mmu.Table.Slots.{IsPage, get-clear, get-clear_ne}
use zheos.Mmu.Table.Walk.{Place, Places, IsTree}
use zheos.Mmu.Table.Ends.{Ends, IsAllocator, Owns}

pub record IsNew {H : Type 0} (Given : H → ℕ → Type 0) (places : Places) (s : State H) (t : ℕ)
    (s' : State H) : Type 0 where
  pub page : IsPage t
  pub width : t < 2 ^ 48
  pub not_null : t ≢ 0
  pub unused : (x : Place) → places t ≢ some x
  pub given : Given s'.heap t
  pub owns : Owns Given s'.heap places
  pub kept : (q : ℕ) (x : Place) → places q ≡ some x → (i : ℕ) → get s'.words q i ≡ get s.words q i
  pub empty : (i : ℕ) → i < 512 → get s'.words t i ≡ zero_descriptor

get-same :
    (words words' : Words) (t i : ℕ)
    → ((j : ℕ) → j < 4096 → words' (t + j) ≡ words (t + j))
    → get words' t i ≡ get words t i
unfolding get
get-same words words' t i same =
    ap from_u64 (same (8 * bit_and i 511) (omega (arith, bit_and-mask 9 i)))

module _ {H : Type 0} (alloc_layout : Alloc H) (Given : H → ℕ → Type 0)
    (lawful : IsAllocator alloc_layout Given) where
  pub new-IsNew :
      (E : State H → MapError → Type 0) (s : State H) (places : Places)
      → ((alloc_layout page_layout s.heap s.words).0 ≡ none
          → E
              (record {
                heap = (alloc_layout page_layout s.heap s.words).1;
                words = (alloc_layout page_layout s.heap s.words).2;
              })
              out_of_memory)
      → IsTree s.words places
      → Owns Given s.heap places
      → Ends (IsNew Given places s) E (new alloc_layout s)
  unfolding new
  new-IsNew E s places oom tree owns =
      elim (Option-cases (alloc_layout page_layout s.heap s.words).0) [
        | inl e ↦ rw (e, Ends, new) (oom e)
        | inr (t, e) ↦ elim (Bool-cases (t == 0)) [
          | inl zero ↦ absurd ((lawful.page s.heap s.words t e).0 ((==_iff t 0).0 zero))
          | inr ok ↦
              let (not_null, page, width, unused, given) = lawful.page s.heap s.words t e in
              rw (e, ok, Ends, new)
                (record {
                  page = page;
                  width = width;
                  not_null = not_null;
                  unused = λ x p. unused (owns t x p);
                  given = given;
                  owns = λ q x p. (lawful.kept s.heap s.words q (owns q x p)).0;
                  kept = λ q x p i.
                      get-clear_ne slots _ t q i page (tree.page q x p)
                        (λ same. unused (rw same (owns q x p)))
                      ∙ get-same s.words _ q i (lawful.kept s.heap s.words q (owns q x p)).1;
                  empty = λ i h. get-clear slots _ t i page (omega arith) h;
                })
        ]
      ]
