-- ===== src/Mm/FreeLists/Splice.antt =====
-- What `push` and `unlink` of src/mm/frames/lists.rs do to the memory of the segments.
use zheos.Common.{◌<◌, ◌^◌, ◌≡◌, ◌≢◌, ◌∙◌, false, arith}
use zheos.Common.{Option, none, some, List, [], ◌∷◌, ◌++◌}
use zheos.Mm.Pfn.{Pfn}
use zheos.Mm.FreeLists.{Links, Words, read_links, write_links, set_prev, set_next}
use zheos.Mm.FreeLists.Segment.{has, Distinct, IsPfn, AllPfns, first_or, last_or, links, Segment}
use zheos.Mm.FreeLists.Segment.{read-write_self, frame, split, join, set_prev-Segment}
use zheos.Mm.FreeLists.Segment.{set_next-Segment, set_prev-other, first_or-IsPfn}

-- The page, if there is one, is not on the list.
abbrev pub Off : Option Pfn → List Pfn → Type 0
Off none ps = Unit
Off (some p) ps = has p ps ≡ false

abbrev pub Disjoint : List Pfn → List Pfn → Type 0
Disjoint [] ps = Unit
Disjoint (q ∷ qs) ps = (has q ps ≡ false) × Disjoint qs ps

pub first_or-Off : (qs ps : List Pfn) → Disjoint qs ps → Off (first_or qs none) ps
first_or-Off [] ps d = tt
first_or-Off (q ∷ qs) ps d = d.0

pub last_or-Off :
    (prev : Option Pfn) (qs ps : List Pfn) → Off prev ps → Disjoint qs ps → Off (last_or prev qs) ps
last_or-Off prev [] ps o d = o
last_or-Off prev (q ∷ qs) ps o d = last_or-Off (some q) qs ps d.0 d.1

set_prev-frame :
    (words : Words) (at value prev : Option Pfn) (ps : List Pfn) (next : Option Pfn)
    → Off at ps
    → Segment words prev ps next
    → Segment (set_prev words at value) prev ps next
unfolding set_prev
set_prev-frame words none value prev ps next o s = s
set_prev-frame words (some q) value prev ps next o s = frame words prev ps next q _ o s

set_next-frame :
    (words : Words) (at value prev : Option Pfn) (ps : List Pfn) (next : Option Pfn)
    → Off at ps
    → Segment words prev ps next
    → Segment (set_next words at value) prev ps next
unfolding set_next
set_next-frame words none value prev ps next o s = s
set_next-frame words (some q) value prev ps next o s = frame words prev ps next q _ o s

-- The memory after `push` of `p` ahead of `old`, and after `unlink` between `prev` and `next`.
abbrev pub pushed : Words → Pfn → Option Pfn → Words
pushed words p old = set_prev (write_links words p (links none old)) old (some p)

abbrev pub unlinked : Words → Links → Words
unlinked words l = set_prev (set_next words l.prev l.next) l.next l.prev

first_or-ne : (p : Pfn) (ps : List Pfn) → has p ps ≡ false → first_or ps none ≢ some p
first_or-ne p [] h e = ground arith
first_or-ne p (q ∷ ps) h e = ground arith

pub pushed_same :
    (words : Words) (p : Pfn) (ps : List Pfn)
    → p < 2 ^ 52
    → has p ps ≡ false
    → AllPfns ps
    → Distinct ps
    → Segment words none ps none
    → Segment (pushed words p (first_or ps none)) none (p ∷ ps) none
pushed_same words p ps small out all d s =
    let l = links none (first_or ps none) in
    (
      set_prev-other (write_links words p l) (first_or ps none) p (some p) (first_or-ne p ps out)
          ∙ read-write_self words p l tt (first_or-IsPfn ps none tt all),
      set_prev-Segment (write_links words p l) none (some p) ps small all d
          (frame words none ps none p l out s),
    )

pub pushed_other :
    (words : Words) (p : Pfn) (ps qs : List Pfn)
    → has p qs ≡ false
    → Disjoint ps qs
    → Segment words none qs none
    → Segment (pushed words p (first_or ps none)) none qs none
pushed_other words p ps qs out d s =
    set_prev-frame (write_links words p (links none (first_or ps none))) (first_or ps none) (some p)
      none qs none (first_or-Off ps qs d) (frame words none qs none p _ out s)

-- The two parts of a list that stand apart.
pub record Parts (xs : List Pfn) (p : Pfn) (ys : List Pfn) : Type 0 where
  pub left : AllPfns xs × Distinct xs
  pub right : AllPfns ys × Distinct ys
  pub apart : Disjoint xs ys × Disjoint ys xs
  pub out : (has p xs ≡ false) × (has p ys ≡ false)

last_or-IsPfn :
    (prev : Option Pfn) (ps : List Pfn) → IsPfn prev → AllPfns ps → IsPfn (last_or prev ps)
last_or-IsPfn prev [] h all = h
last_or-IsPfn prev (p ∷ ps) h all = last_or-IsPfn (some p) ps all.0 all.1

pub links_of :
    (words : Words) (xs : List Pfn) (p : Pfn) (ys : List Pfn)
    → Segment words none (xs ++ (p ∷ ys)) none
    → read_links words p ≡ links (last_or none xs) (first_or ys none)
links_of words xs p ys s = (split words none xs (p ∷ ys) none s).1.0

pub unlinked_same :
    (words : Words) (xs : List Pfn) (p : Pfn) (ys : List Pfn)
    → Parts xs p ys
    → Segment words none (xs ++ (p ∷ ys)) none
    → Segment (unlinked words (links (last_or none xs) (first_or ys none))) none (xs ++ ys) none
unlinked_same words xs p ys d s =
    let (front, back) = split words none xs (p ∷ ys) none s in
    let last = last_or none xs in
    let first = first_or ys none in
    let front' =
      set_next-Segment words none xs (some p) first tt (first_or-IsPfn ys none tt d.right.0)
        d.left.0 d.left.1 front in
    let back' =
      set_next-frame words last first (some p) ys none (last_or-Off none xs ys tt d.apart.0)
        back.1 in
    let words' = set_next words last first in
    join (set_prev words' first last) none xs ys none
      (set_prev-frame words' first last none xs first (first_or-Off ys xs d.apart.1) front')
      (set_prev-Segment words' (some p) last ys (last_or-IsPfn none xs tt d.left.0) d.right.0
        d.right.1 back')

pub unlinked_other :
    (words : Words) (xs ys zs : List Pfn)
    → Disjoint xs zs
    → Disjoint ys zs
    → Segment words none zs none
    → Segment (unlinked words (links (last_or none xs) (first_or ys none))) none zs none
unlinked_other words xs ys zs dx dy s =
    set_prev-frame (set_next words (last_or none xs) (first_or ys none)) (first_or ys none)
      (last_or none xs) none zs none (first_or-Off ys zs dy)
      (set_next-frame words (last_or none xs) (first_or ys none) none zs none
        (last_or-Off none xs zs tt dx) s)
