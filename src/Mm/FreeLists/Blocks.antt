-- ===== src/Mm/FreeLists/Blocks.antt =====
-- The walk of `blocks` in src/mm/frames/lists.rs ends, and counts the list.
use zheos.Common.{
  ℕ, zero, suc, ◌+◌, ◌<◌, ◌^◌, ◌≡◌, ◌≤◌, ◌%◌, ap, ap₂, ◌∙◌, Option, none, some, List, [], ◌∷◌,
}
use zheos.Common.{arith, length}
use zheos.Mm.Pfn.{Pfn}
use zheos.Mm.FreeLists.{FreeLists, Words, count_from, blocks}
use zheos.Mm.FreeLists.Segment.{first_or, Segment}
use zheos.Mm.FreeLists.Lists.{Lists}
use zheos.Mm.FreeLists.Refine.{Holds}

count_from-length :
    (fuel : ℕ) (words : Words) (prev : Option Pfn) (ps : List Pfn) (count : ℕ)
    → Segment words prev ps none
    → length ps < fuel
    → count + length ps < 2 ^ 64
    → count_from fuel words (first_or ps none) count ≡ some (count + length ps)
unfolding count_from
count_from-length zero words prev ps count s f h = absurd (omega arith)
count_from-length (suc fuel) words prev [] count s f h = ap some (omega arith)
count_from-length (suc fuel) words prev (p ∷ ps) count s f h =
    let next = ap (λ l. l.next) s.0 in
    let up : (count + 1) % 2 ^ 64 ≡ count + 1 = omega arith in
    ap₂ (count_from fuel words) next up
    ∙ count_from-length fuel words (some p) ps (count + 1) s.1 (omega arith) (omega arith)
    ∙ ap some (omega arith)

-- With more fuel than the list of the order has blocks, `blocks` returns their number.
pub blocks-length :
    (fuel : ℕ) (fl : FreeLists) (lists : Lists) (o : ℕ)
    → o < 11
    → Holds fl lists
    → length (lists o) < fuel
    → fuel ≤ 2 ^ 64
    → blocks fuel fl o ≡ some (length (lists o))
unfolding blocks
blocks-length fuel fl lists o bound v enough small =
    ap (λ h. count_from fuel fl.words h 0) (v.front o bound)
    ∙ count_from-length fuel fl.words none (lists o) 0 (v.chain o bound) enough (omega arith)
    ∙ ap some (omega arith)
