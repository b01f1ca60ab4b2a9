-- ===== src/Mm/FreeLists/Refine.antt =====
-- The free lists of src/mm/frames/lists.rs hold one list of pages for each order.
use zheos.Common.{ℕ, ◌<◌, ◌≤◌, ◌^◌, ◌%◌, ◌≡◌, ◌≢◌, sym, subst, ◌∙◌, true, false, arith}
use zheos.Common.{none, some, List, ◌∷◌, ◌==◌, length, get_or, set, ltb, Bool-cases, inl, inr}
use zheos.Common.{length-set, get_or-set_self, get_or-set_ne, add64, ◌<<<◌}
use native.Mathlib.Nat.{pow-le-pow_right}
use zheos.Mm.Pfn.{Pfn}
use zheos.Mm.FreeLists.{FreeLists, head, push}
use zheos.Mm.FreeLists.Segment.{has, Distinct, AllPfns, first_or, Segment}
use zheos.Mm.FreeLists.Splice.{Disjoint, pushed, pushed_same, pushed_other}
use zheos.Mm.FreeLists.Lists.{Lists, replace, total, total-replace}
use zheos.Mm.FreeLists.Lists.{Disjoint-cons}

-- The free lists stand for the lists: each is linked both ways through its pages, no page is on two
-- lists or twice on one, and `pages` counts the pages of all blocks.
pub record Holds (fl : FreeLists) (lists : Lists) : Type 0 where
  pub size : length fl.heads ≡ 11
  pub front : (o : ℕ) → o < 11 → head fl o ≡ first_or (lists o) none
  pub chain : (o : ℕ) → o < 11 → Segment fl.words none (lists o) none
  pub small : (o : ℕ) → o < 11 → AllPfns (lists o)
  pub distinct : (o : ℕ) → o < 11 → Distinct (lists o)
  pub apart : (o k : ℕ) → o < 11 → k < 11 → o ≢ k → Disjoint (lists o) (lists k)
  pub counted : fl.pages ≡ total 11 lists % 2 ^ 64

-- The page is on no list.
abbrev pub IsOff : Pfn → Lists → Type 0
IsOff p lists = (o : ℕ) → o < 11 → has p (lists o) ≡ false

pub order-small : (o : ℕ) → o < 11 → 2 ^ o ≤ 1024
order-small o h = pow-le-pow_right (omega arith) {i = o} {j = 10} (omega arith)

module _ {fl : FreeLists} {lists : Lists} (o : ℕ) (bound : o < 11) (v : Holds fl lists) where
  -- How a field of the new state is shown: at the order that changed, and at the others.
  pub at_order :
      (P : ℕ → List Pfn → Type 0) (ps : List Pfn)
      → P o ps
      → ((k : ℕ) → k < 11 → o ≢ k → P k (lists k))
      → (k : ℕ) → k < 11
      → P k (replace lists o ps k)
  at_order P ps here there k h = elim (Bool-cases (o == k)) [
    | inl e ↦ rw e (let same : o ≡ k = ground arith in subst (λ n. P n ps) same here)
    | inr e ↦ rw e (there k h (ground arith))
  ]

  pub apart-replace :
      (ps : List Pfn)
      → ((k : ℕ) → k < 11 → o ≢ k → Disjoint ps (lists k) × Disjoint (lists k) ps)
      → (i k : ℕ) → i < 11
      → k < 11
      → i ≢ k
      → Disjoint (replace lists o ps i) (replace lists o ps k)
  apart-replace ps h i k hi hk ne = elim (Bool-cases (o == i)) [
    | inl e ↦ let other : (o == k) ≡ false = ground arith in rw (e, other) (h k hk (ground arith)).0
    | inr e ↦ rw e (elim (Bool-cases (o == k)) [
      | inl f ↦ rw f (h i hi (ground arith)).1
      | inr f ↦ rw f (v.apart i k hi hk ne)
    ])
  ]

  module _ (p : Pfn) (small : p < 2 ^ 52) (off : IsOff p lists) where
    push_open : push fl p o ≡ record {
      heads = set fl.heads o (some p);
      words = pushed fl.words p (first_or (lists o) none);
      pages = add64 fl.pages (1 <<< o);
    }
    unfolding push
    push_open =
        let inside : ltb o 11 ≡ true = ground arith in
        rw inside (λ i. record {
          heads = set fl.heads o (some p);
          words = pushed fl.words p (v.front o bound i);
          pages = add64 fl.pages (1 <<< o);
        })

    push_opened :
        Holds
          (record {
            heads = set fl.heads o (some p);
            words = pushed fl.words p (first_or (lists o) none);
            pages = add64 fl.pages (1 <<< o);
          })
          (replace lists o (p ∷ lists o))
    push_opened = record {
      size = length-set fl.heads o (some p) ∙ v.size;
      front =
          at_order (λ k ps. get_or (set fl.heads o (some p)) k none ≡ first_or ps none)
            (p ∷ lists o) (get_or-set_self fl.heads o (some p) none (omega (arith, v.size)))
            λ k h ne. get_or-set_ne fl.heads (some p) none ne ∙ v.front k h;
      chain =
          at_order (λ k ps. Segment (pushed fl.words p (first_or (lists o) none)) none ps none)
            (p ∷ lists o)
            (pushed_same fl.words p (lists o) small (off o bound) (v.small o bound)
              (v.distinct o bound) (v.chain o bound))
            λ k h ne.
              pushed_other fl.words p (lists o) (lists k) (off k h) (v.apart o k bound h ne)
                (v.chain k h);
      small =
          at_order (λ k ps. AllPfns ps) (p ∷ lists o) (small, v.small o bound)
            λ k h ne. v.small k h;
      distinct =
          at_order (λ k ps. Distinct ps) (p ∷ lists o) (off o bound, v.distinct o bound)
            λ k h ne. v.distinct k h;
      apart = apart-replace (p ∷ lists o) λ k h ne. (
        (off k h, v.apart o k bound h ne),
        Disjoint-cons p (lists k) (lists o) (v.apart k o h bound (λ e. ne (sym e))) (off k h),
      );
      counted =
          omega
            (arith, v.counted, order-small o bound, total-replace 11 lists o (p ∷ lists o) bound);
    }

    -- `push` of a page that is on no list puts it at the front of the list of its order, and changes
    -- no other list.
    pub push-Holds : Holds (push fl p o) (replace lists o (p ∷ lists o))
    push-Holds = subst (λ s. Holds s (replace lists o (p ∷ lists o))) (sym push_open) push_opened
