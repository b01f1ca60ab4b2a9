-- ===== src/Mm/FreeLists/Unlink.antt =====
-- `unlink` and `pop` of src/mm/frames/lists.rs on the lists that the free lists stand for.
use zheos.Common.{ℕ, ◌*◌, ◌<◌, ◌^◌, ◌≡◌, ◌≢◌, refl, sym, subst, ap, ◌∙◌, true, arith}
use zheos.Common.{
  Option, none, some, List, [], ◌∷◌, ◌++◌, ◌==◌, length, get_or, Option-cases, inl, inr,
}
use zheos.Common.{length-set, get_or-set_self, get_or-set_ne, sub64, ◌<<<◌}
use zheos.Mm.Pfn.{Pfn}
use zheos.Mm.FreeLists.{FreeLists, Links, head, unlink, pop, heads_after}
use zheos.Mm.FreeLists.Segment.{has, Distinct, AllPfns, first_or, last_or, links, Segment}
use zheos.Mm.FreeLists.Splice.{Disjoint, unlinked}
use zheos.Mm.FreeLists.Splice.{unlinked_same, unlinked_other, links_of}
use zheos.Mm.FreeLists.Lists.{Lists, replace, erase, total-replace, cut, Cut, length-erase}
use zheos.Mm.FreeLists.Lists.{erase-Disjoint, Disjoint-erase, erase-AllPfns, erase-Distinct}
use zheos.Mm.FreeLists.Refine.{Holds, order-small, at_order, apart-replace}

first_or-append :
    (heads : List (Option Pfn)) (o : ℕ) (xs : List Pfn) (p : Pfn) (ys : List Pfn)
    → o < length heads
    → get_or heads o none ≡ first_or (xs ++ (p ∷ ys)) none
    → get_or (heads_after heads (links (last_or none xs) (first_or ys none)) o) o none
      ≡ first_or (xs ++ ys) none
first_or-append heads o [] p ys h e = get_or-set_self heads o (first_or ys none) none h
first_or-append heads o (x ∷ xs) p ys h e =
    let (b, at) = last_or-some x xs in
    ap (λ t. get_or (heads_after heads (links t (first_or ys none)) o) o none) at ∙ e
  where
    last_or-some : (y : Pfn) (zs : List Pfn) → (b : Pfn) × (last_or (some y) zs ≡ some b)
    last_or-some y [] = (y, refl)
    last_or-some y (z ∷ zs) = last_or-some z zs

heads_after-other :
    (heads : List (Option Pfn)) (o k : ℕ) (l : Links)
    → o ≢ k
    → get_or (heads_after heads l o) k none ≡ get_or heads k none
heads_after-other heads o k l ne = elim (Option-cases l.prev) [
  | inl e ↦ rw (e, heads_after) (get_or-set_ne heads l.next none ne)
  | inr (q, e) ↦ rw (e, heads_after)
]

length-heads_after :
    (heads : List (Option Pfn)) (o : ℕ) (l : Links) → length (heads_after heads l o) ≡ length heads
length-heads_after heads o l = elim (Option-cases l.prev) [
  | inl e ↦ rw (e, heads_after) (length-set heads o l.next)
  | inr (q, e) ↦ rw (e, heads_after)
]

Disjoint-parts :
    (xs : List Pfn) (p : Pfn) (ys qs : List Pfn)
    → Disjoint (xs ++ (p ∷ ys)) qs
    → Disjoint xs qs × Disjoint ys qs
Disjoint-parts [] p ys qs d = (tt, d.1)
Disjoint-parts (x ∷ xs) p ys qs d = let (a, b) = Disjoint-parts xs p ys qs d.1 in ((d.0, a), b)

module _ {fl : FreeLists} {lists : Lists} (o : ℕ) (bound : o < 11) (v : Holds fl lists) (p : Pfn)
    (on : has p (lists o) ≡ true) where
  abbrev c : Cut p (lists o)
  c = cut p (lists o) on (v.small o bound) (v.distinct o bound)

  abbrev around : Links
  around = links (last_or none c.before) (first_or c.behind none)

  abbrev after : FreeLists
  after = record {
    heads = heads_after fl.heads around o;
    words = unlinked fl.words around;
    pages = sub64 fl.pages (1 <<< o);
  }

  unlink_open : unlink fl p o ≡ after
  unfolding unlink
  unlink_open =
      let chain = subst (λ ps. Segment fl.words none ps none) c.whole (v.chain o bound) in
      ap
        (λ l. record {
          heads = heads_after fl.heads l o;
          words = unlinked fl.words l;
          pages = sub64 fl.pages (1 <<< o);
        })
        (links_of fl.words c.before p c.behind chain)

  unlink_opened : Holds after (replace lists o (erase p (lists o)))
  unlink_opened = record {
    size = length-heads_after fl.heads o around ∙ v.size;
    front =
        at_order o bound v
          (λ k ps. get_or (heads_after fl.heads around o) k none ≡ first_or ps none)
          (erase p (lists o))
          (subst (λ ps. get_or (heads_after fl.heads around o) o none ≡ first_or ps none)
            (sym c.rest)
            (first_or-append fl.heads o c.before p c.behind (omega (arith, v.size))
              (v.front o bound ∙ ap (λ ps. first_or ps none) c.whole)))
          λ k h ne. heads_after-other fl.heads o k around ne ∙ v.front k h;
    chain =
        at_order o bound v (λ k ps. Segment (unlinked fl.words around) none ps none)
          (erase p (lists o))
          (subst (λ ps. Segment (unlinked fl.words around) none ps none) (sym c.rest)
            (unlinked_same fl.words c.before p c.behind c.parts
              (subst (λ ps. Segment fl.words none ps none) c.whole (v.chain o bound))))
          λ k h ne.
            let (front, back) =
              Disjoint-parts c.before p c.behind (lists k)
                (subst (λ ps. Disjoint ps (lists k)) c.whole (v.apart o k bound h ne)) in
            unlinked_other fl.words c.before c.behind (lists k) front back (v.chain k h);
    small =
        at_order o bound v (λ k ps. AllPfns ps) (erase p (lists o))
          (erase-AllPfns p (lists o) (v.small o bound)) λ k h ne. v.small k h;
    distinct =
        at_order o bound v (λ k ps. Distinct ps) (erase p (lists o))
          (erase-Distinct p (lists o) (v.distinct o bound)) λ k h ne. v.distinct k h;
    apart = apart-replace o bound v (erase p (lists o)) λ k h ne. (
      erase-Disjoint p (lists o) (lists k) (v.apart o k bound h ne),
      Disjoint-erase p (lists k) (lists o) (v.apart k o h bound (λ e. ne (sym e))),
    );
    counted = omega (
      arith,
      v.counted,
      order-small o bound,
      total-replace 11 lists o (erase p (lists o)) bound,
      ap (λ (t : ℕ). 2 ^ o * t) (length-erase p (lists o) on),
    );
  }

  -- `unlink` of a page on the list of its order takes it off that list, wherever it stands, and
  -- changes no other list.
  pub unlink-Holds : Holds (unlink fl p o) (replace lists o (erase p (lists o)))
  unlink-Holds =
      subst (λ s. Holds s (replace lists o (erase p (lists o)))) (sym unlink_open) unlink_opened

-- What `pop` returns for a list: nothing for none, or its first page, with the rest left behind.
abbrev pub Popped : Lists → ℕ → List Pfn → Option (Pfn × FreeLists) → Type 0
Popped lists o [] r = r ≡ none
Popped lists o (p ∷ ps) r = (fl' : FreeLists) × (r ≡ some (p, fl')) × Holds fl' (replace lists o ps)

pop-front :
    (fl : FreeLists) (lists : Lists) (o : ℕ) (ps : List Pfn)
    → o < 11
    → Holds fl lists
    → lists o ≡ ps
    → Popped lists o ps (pop fl o)
unfolding pop
pop-front fl lists o [] bound v e =
    let none_left : head fl o ≡ none = v.front o bound ∙ ap (λ ps. first_or ps none) e in
    rw (none_left, pop)
pop-front fl lists o (p ∷ ps) bound v e =
    let front : head fl o ≡ some p = v.front o bound ∙ ap (λ ps. first_or ps none) e in
    let same : (p == p) ≡ true = ground arith in
    let on : has p (lists o) ≡ true = ap (has p) e ∙ rw same in
    let rest : erase p (lists o) ≡ ps = ap (erase p) e ∙ rw same in
    (
      unlink fl p o,
      rw (front, pop),
      subst (λ qs. Holds (unlink fl p o) (replace lists o qs)) rest (unlink-Holds o bound v p on),
    )

-- `pop` takes the first page of the list of an order, if it has one, and changes no other list.
pub pop-Popped :
    (fl : FreeLists) (lists : Lists) (o : ℕ)
    → o < 11
    → Holds fl lists
    → Popped lists o (lists o) (pop fl o)
pop-Popped fl lists o bound v = pop-front fl lists o (lists o) bound v refl
