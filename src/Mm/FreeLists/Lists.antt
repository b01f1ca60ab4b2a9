-- ===== src/Mm/FreeLists/Lists.antt =====
-- The lists of pages that the free lists of src/mm/frames/lists.rs stand for, one for each order.
use zheos.Common.{
  ℕ, zero, suc, ◌+◌, ◌*◌, ◌<◌, ◌≤◌, ◌^◌, ◌≡◌, refl, sym, ap, ◌∙◌, true, false, ◌||◌, arith,
}
use zheos.Common.{List, [], ◌∷◌, ◌++◌, ◌==◌, if◌then◌else◌, length, Bool-cases, inl, inr}
use native.Mathlib.Decide.{dec_lt}
use zheos.Mm.Pfn.{Pfn}
use zheos.Mm.FreeLists.Segment.{has, Distinct, AllPfns}
use zheos.Mm.FreeLists.Splice.{Disjoint, Parts}

abbrev pub erase : Pfn → List Pfn → List Pfn
erase p [] = []
erase p (q ∷ qs) = if q == p then qs else q ∷ erase p qs

abbrev pub Lists : Type 0
Lists = ℕ → List Pfn

abbrev pub replace : Lists → ℕ → List Pfn → Lists
replace lists order ps k = if order == k then ps else lists k

-- The pages in the blocks of the first `n` orders.
unfoldable pub total : ℕ → Lists → ℕ
total zero lists = 0
total (suc n) lists = total n lists + 2 ^ n * length (lists n)

total-replace_ge :
    (n : ℕ) (lists : Lists) (order : ℕ) (ps : List Pfn)
    → n ≤ order
    → total n (replace lists order ps) ≡ total n lists
unfolding total
total-replace_ge zero lists order ps h = refl
total-replace_ge (suc n) lists order ps h = ground (arith, total-replace_ge n lists order ps)

pub total-replace :
    (n : ℕ) (lists : Lists) (order : ℕ) (ps : List Pfn)
    → order < n
    → total n (replace lists order ps) + 2 ^ order * length (lists order)
      ≡ total n lists + 2 ^ order * length ps
unfolding total
total-replace zero lists order ps h = absurd (omega arith)
total-replace (suc n) lists order ps h = elim (dec_lt order n) [
  | yes below ↦ ground (arith, total-replace n lists order ps below)
  | no last ↦
      let here : order ≡ n = omega arith in ground (arith, total-replace_ge n lists order ps)
]

has-append : (p : Pfn) (xs ys : List Pfn) → has p (xs ++ ys) ≡ (has p xs || has p ys)
has-append p [] ys = refl
has-append p (x ∷ xs) ys = ground (arith, has-append p xs ys)

pub has-erase : (p q : Pfn) (ps : List Pfn) → has q ps ≡ false → has q (erase p ps) ≡ false
has-erase p q [] h = refl
has-erase p q (r ∷ ps) h = ground (arith, has-erase p q ps)

pub erase-Disjoint : (p : Pfn) (ps qs : List Pfn) → Disjoint ps qs → Disjoint (erase p ps) qs
erase-Disjoint p [] qs d = tt
erase-Disjoint p (r ∷ ps) qs d = elim (Bool-cases (r == p)) [
  | inl e ↦ rw e d.1
  | inr e ↦ rw e (d.0, erase-Disjoint p ps qs d.1)
]

pub Disjoint-erase : (p : Pfn) (ps qs : List Pfn) → Disjoint ps qs → Disjoint ps (erase p qs)
Disjoint-erase p [] qs d = tt
Disjoint-erase p (r ∷ ps) qs d = (has-erase p r qs d.0, Disjoint-erase p ps qs d.1)

pub Disjoint-cons :
    (p : Pfn) (ps qs : List Pfn) → Disjoint ps qs → has p ps ≡ false → Disjoint ps (p ∷ qs)
Disjoint-cons p [] qs d h = tt
Disjoint-cons p (r ∷ ps) qs d h = (ground arith, Disjoint-cons p ps qs d.1 (ground arith))

pub erase-AllPfns : (p : Pfn) (ps : List Pfn) → AllPfns ps → AllPfns (erase p ps)
erase-AllPfns p [] h = tt
erase-AllPfns p (r ∷ ps) h = elim (Bool-cases (r == p)) [
  | inl e ↦ rw e h.1
  | inr e ↦ rw e (h.0, erase-AllPfns p ps h.1)
]

pub erase-Distinct : (p : Pfn) (ps : List Pfn) → Distinct ps → Distinct (erase p ps)
erase-Distinct p [] h = tt
erase-Distinct p (r ∷ ps) h = elim (Bool-cases (r == p)) [
  | inl e ↦ rw e h.1
  | inr e ↦ rw e (has-erase p r ps h.0, erase-Distinct p ps h.1)
]

pub length-erase :
    (p : Pfn) (ps : List Pfn) → has p ps ≡ true → suc (length (erase p ps)) ≡ length ps
length-erase p [] h = absurd (ground arith)
length-erase p (r ∷ ps) h = ground (arith, length-erase p ps)

-- A page on the list, with what stands before and behind it.
pub record Cut (p : Pfn) (ps : List Pfn) : Type 0 where
  pub before : List Pfn
  pub behind : List Pfn
  pub whole : ps ≡ before ++ (p ∷ behind)
  pub rest : erase p ps ≡ before ++ behind
  pub parts : Parts before p behind

cut_here :
    (p q : Pfn) (ps : List Pfn) → (q == p) ≡ true → AllPfns ps → Distinct (q ∷ ps) → Cut p (q ∷ ps)
cut_here p q ps e all d =
    let same : q ≡ p = ground arith in
    record {
      before = [];
      behind = ps;
      whole = ap (λ r. r ∷ ps) same;
      rest = rw e;
      parts = record {
        left = (tt, tt);
        right = (all, d.1);
        apart = (tt, Disjoint-nil ps);
        out = (refl, ground arith);
      };
    }
  where
    Disjoint-nil : (qs : List Pfn) → Disjoint qs []
    Disjoint-nil [] = tt
    Disjoint-nil (r ∷ qs) = (refl, Disjoint-nil qs)

cut_on :
    (p q : Pfn) (ps : List Pfn)
    → (q == p) ≡ false
    → q < 2 ^ 52
    → has q ps ≡ false
    → Cut p ps
    → Cut p (q ∷ ps)
cut_on p q ps e small out c =
    let apart : (has q c.before || has q (p ∷ c.behind)) ≡ false =
      sym (has-append q c.before (p ∷ c.behind)) ∙ ap (has q) (sym c.whole) ∙ out in
    record {
      before = q ∷ c.before;
      behind = c.behind;
      whole = ap (λ r. q ∷ r) c.whole;
      rest = rw e (ap (λ r. q ∷ r) c.rest);
      parts = record {
        left = ((small, c.parts.left.0), (ground arith, c.parts.left.1));
        right = c.parts.right;
        apart = (
          (ground arith, c.parts.apart.0),
          Disjoint-cons q c.behind c.before c.parts.apart.1 (ground arith),
        );
        out = (ground arith, c.parts.out.1);
      };
    }

pub cut : (p : Pfn) (ps : List Pfn) → has p ps ≡ true → AllPfns ps → Distinct ps → Cut p ps
cut p [] h all d = absurd (ground arith)
cut p (q ∷ ps) h all d = elim (Bool-cases (q == p)) [
  | inl e ↦ cut_here p q ps e all.1 d
  | inr e ↦ cut_on p q ps e all.0 d.0 (cut p ps (ground arith) all.1 d.1)
]
