-- ===== src/Mm/FreeLists/Segment.antt =====
-- Doubly linked segments in the memory of src/mm/frames/lists.rs.
use zheos.Common.{◌<◌, ◌^◌, ◌≡◌, ◌≢◌, refl, sym, subst, ap, ◌∙◌, Bool, false, ◌||◌, arith}
use zheos.Common.{Option, none, some, List, [], ◌∷◌, ◌++◌, ◌==◌}
use zheos.Mm.Pfn.{Pfn}
use zheos.Mm.FreeLists.{Links, Words, encode, decode, addr_from_pfn, pfn_from_addr}
use zheos.Mm.FreeLists.{read_links, write_links, set_prev, set_next}

abbrev pub has : Pfn → List Pfn → Bool
has p [] = false
has p (q ∷ qs) = (q == p) || has p qs

abbrev pub Distinct : List Pfn → Type 0
Distinct [] = Unit
Distinct (p ∷ ps) = (has p ps ≡ false) × Distinct ps

-- The address of the page is below the end of the address space.
abbrev pub IsPfn : Option Pfn → Type 0
IsPfn none = Unit
IsPfn (some p) = p < 2 ^ 52

abbrev pub AllPfns : List Pfn → Type 0
AllPfns [] = Unit
AllPfns (p ∷ ps) = (p < 2 ^ 52) × AllPfns ps

abbrev pub first_or : List Pfn → Option Pfn → Option Pfn
first_or [] next = next
first_or (p ∷ ps) next = some p

abbrev pub last_or : Option Pfn → List Pfn → Option Pfn
last_or prev [] = prev
last_or prev (p ∷ ps) = last_or (some p) ps

abbrev pub links : Option Pfn → Option Pfn → Links
links prev next = record { prev = prev; next = next }

-- The pages `ps` in order, the first behind `prev` and the last ahead of `next`.
abbrev pub Segment : Words → Option Pfn → List Pfn → Option Pfn → Type 0
Segment words prev [] next = Unit
Segment words prev (p ∷ ps) next =
    (read_links words p ≡ links prev (first_or ps next)) × Segment words (some p) ps next

pfn_from_addr-addr_from_pfn : (o : Option Pfn) → IsPfn o → pfn_from_addr (addr_from_pfn o) ≡ o
unfolding pfn_from_addr addr_from_pfn
pfn_from_addr-addr_from_pfn none h = refl
pfn_from_addr-addr_from_pfn (some p) h = ground arith

-- The links of a page survive their two words.
pub decode-encode : (l : Links) → IsPfn l.prev → IsPfn l.next → decode (encode l) ≡ l
unfolding decode encode
decode-encode l hp hn = λ i. record {
  prev = pfn_from_addr-addr_from_pfn l.prev hp i;
  next = pfn_from_addr-addr_from_pfn l.next hn i;
}

pub read-write_self :
    (words : Words) (p : Pfn) (l : Links)
    → IsPfn l.prev
    → IsPfn l.next
    → read_links (write_links words p l) p ≡ l
unfolding read_links write_links
read-write_self words p l hp hn = ground (arith, decode-encode l hp hn)

pub read-write_ne :
    (words : Words) (p q : Pfn) (l : Links)
    → p ≢ q
    → read_links (write_links words p l) q ≡ read_links words q
unfolding read_links write_links
read-write_ne words p q l h = ground arith

-- A write at a page that is not on the segment leaves the segment as it was.
pub frame :
    (words : Words) (prev : Option Pfn) (ps : List Pfn) (next : Option Pfn) (p : Pfn) (l : Links)
    → has p ps ≡ false
    → Segment words prev ps next
    → Segment (write_links words p l) prev ps next
frame words prev [] next p l out s = tt
frame words prev (q ∷ ps) next p l out s = (
  read-write_ne words p q l (ground arith) ∙ s.0,
  frame words (some q) ps next p l (ground arith) s.1,
)

pub first_or-IsPfn :
    (ps : List Pfn) (next : Option Pfn) → IsPfn next → AllPfns ps → IsPfn (first_or ps next)
first_or-IsPfn [] next h all = h
first_or-IsPfn (p ∷ ps) next h all = all.0

pub split :
    (words : Words) (prev : Option Pfn) (xs ys : List Pfn) (next : Option Pfn)
    → Segment words prev (xs ++ ys) next
    → Segment words prev xs (first_or ys next) × Segment words (last_or prev xs) ys next
split words prev [] ys next s = (tt, s)
split words prev (x ∷ []) ys next s = ((s.0, tt), s.1)
split words prev (x ∷ y ∷ xs) ys next s =
    let (front, back) = split words (some x) (y ∷ xs) ys next s.1 in ((s.0, front), back)

pub join :
    (words : Words) (prev : Option Pfn) (xs ys : List Pfn) (next : Option Pfn)
    → Segment words prev xs (first_or ys next)
    → Segment words (last_or prev xs) ys next
    → Segment words prev (xs ++ ys) next
join words prev [] ys next front back = back
join words prev (x ∷ []) ys next front back = (front.0, back)
join words prev (x ∷ y ∷ xs) ys next front back =
    (front.0, join words (some x) (y ∷ xs) ys next front.1 back)

-- `set_prev` at the first page moves the front of a segment, `set_next` at the last its end.
pub set_prev-Segment :
    (words : Words) (prev prev' : Option Pfn) (ps : List Pfn)
    → IsPfn prev'
    → AllPfns ps
    → Distinct ps
    → Segment words prev ps none
    → Segment (set_prev words (first_or ps none) prev') prev' ps none
unfolding set_prev
set_prev-Segment words prev prev' [] h all d s = tt
set_prev-Segment words prev prev' (p ∷ ps) h all d s = (
  read-write_self words p (record (read_links words p) { prev = prev' }) h
        (subst (λ l. IsPfn l.next) (sym s.0) (first_or-IsPfn ps none tt all.1))
      ∙ ap (λ l. links prev' l.next) s.0,
  frame words (some p) ps none p (record (read_links words p) { prev = prev' }) d.0 s.1,
)

pub set_next-other :
    (words : Words) (at : Option Pfn) (p : Pfn) (value : Option Pfn)
    → at ≢ some p
    → read_links (set_next words at value) p ≡ read_links words p
unfolding set_next
set_next-other words none p value h = refl
set_next-other words (some q) p value h =
    read-write_ne words q p (record (read_links words q) { next = value }) (λ e. h (ap some e))

pub set_prev-other :
    (words : Words) (at : Option Pfn) (p : Pfn) (value : Option Pfn)
    → at ≢ some p
    → read_links (set_prev words at value) p ≡ read_links words p
unfolding set_prev
set_prev-other words none p value h = refl
set_prev-other words (some q) p value h =
    read-write_ne words q p (record (read_links words q) { prev = value }) (λ e. h (ap some e))

-- A page that is not on the list is not its last.
pub last_or-ne : (q p : Pfn) (ps : List Pfn) → has p (q ∷ ps) ≡ false → last_or (some q) ps ≢ some p
last_or-ne q p [] h e = ground arith
last_or-ne q p (r ∷ ps) h e = last_or-ne r p ps (ground arith) e

pub set_next-Segment :
    (words : Words) (prev : Option Pfn) (ps : List Pfn) (next next' : Option Pfn)
    → IsPfn prev
    → IsPfn next'
    → AllPfns ps
    → Distinct ps
    → Segment words prev ps next
    → Segment (set_next words (last_or none ps) next') prev ps next'
unfolding set_next
set_next-Segment words prev [] next next' hp h all d s = tt
set_next-Segment words prev (p ∷ []) next next' hp h all d s = (
  read-write_self words p (record (read_links words p) { next = next' })
        (subst (λ l. IsPfn l.prev) (sym s.0) hp) h
      ∙ ap (λ l. links l.prev next') s.0,
  tt,
)
set_next-Segment words prev (p ∷ q ∷ ps) next next' hp h all d s = (
  set_next-other words (last_or (some q) ps) p next' (last_or-ne q p ps d.0) ∙ s.0,
  set_next-Segment words (some p) (q ∷ ps) next next' all.0 h all.1 d.1 s.1,
)
