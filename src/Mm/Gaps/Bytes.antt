-- ===== src/Mm/Gaps/Bytes.antt =====
-- src/mm/gaps.rs in terms of bytes: the arena rounds inward, every taken region outward.
use zheos.Common.{ℕ, ◌+◌, ◌*◌, ◌^◌, ◌≤◌, ◌<◌, ◌≡◌, refl, true, false, not, ◌&&◌, none, some, ◌↔◌}
use zheos.Common.{max, List, [], ◌∷◌, arith, ltb, leb, length, Option-cases, inl, inr}
use zheos.Mm.Pfn.{Pfn, from_addr_up, from_addr_down}
use zheos.Mm.Region
use zheos.Mm.Region.{Region}
use zheos.Mm.PageRange
use zheos.Mm.Gaps.{ranges, gaps}
use zheos.Mm.Gaps.Cover.{covered, starts_above-le}
use zheos.Mm.Gaps.Runs.{collect-covered, IsOrdered, collect-IsOrdered}

-- The region does not reach past the address space.
abbrev pub IsRegion : Region → Type 0
IsRegion r = r.base + r.size < 2 ^ 64

-- No byte of the page lies in the region.
abbrev pub IsClear : Pfn → Region → Type 0
IsClear p r = (a : ℕ) → p * 4096 ≤ a → a < p * 4096 + 4096 → r.base ≤ a → a < r.base + r.size → ⊥

abbrev pub AllRegions : List Region → Type 0
AllRegions [] = Unit
AllRegions (r ∷ rs) = IsRegion r × AllRegions rs

abbrev pub AllClear : Pfn → List Region → Type 0
AllClear p [] = Unit
AllClear p (r ∷ rs) = IsClear p r × AllClear p rs

-- The page lies whole in the region.
abbrev pub IsInside : Pfn → Region → Type 0
IsInside p arena = (arena.base ≤ p * 4096) × (p * 4096 + 4096 ≤ arena.base + arena.size)

module _ (arena : Region) (fits : IsRegion arena) (p : Pfn) (inside : IsInside p arena) where
  none-IsClear : (r : Region) → IsRegion r → PageRange.new r arena ≡ none → IsClear p r
  unfolding PageRange.new
  none-IsClear r h e a lo hi from to = absurd (ground arith)

  some-IsClear :
      (r : Region) {q : PageRange.PageRange}
      → IsRegion r
      → PageRange.new r arena ≡ some q
      → PageRange.contains q p ≡ false
      → IsClear p r
  unfolding PageRange.new
  some-IsClear r h e f a lo hi from to = absurd (ground arith)

  contains_of_clear :
      (r : Region) {q : PageRange.PageRange}
      → IsRegion r
      → PageRange.new r arena ≡ some q
      → IsClear p r
      → PageRange.contains q p ≡ false
  unfolding PageRange.new
  contains_of_clear r h e c = ground (arith, c (max (max r.base arena.base) (p * 4096)))

  covered-ranges :
      (taken : List Region)
      → AllRegions taken
      → (covered (ranges arena taken) p ≡ false) ↔ AllClear p taken
  unfolding covered ranges
  covered-ranges [] h = (λ _. tt, λ _. refl)
  covered-ranges (r ∷ taken) h =
      let (to, from) = covered-ranges taken h.1 in
      elim (Option-cases (PageRange.new r arena)) [
        | inl e ↦ rw (e, ranges) (λ f. (none-IsClear r h.0 e, to f), λ c. from c.1)
        | inr (q, e) ↦
            rw (e, ranges)
              (
                λ f. (some-IsClear r h.0 e (ground arith), to (ground arith)),
                λ c. ground (arith, contains_of_clear r h.0 e c.0, from c.1),
              )
      ]

-- What the doc comment of `gaps` promises of a page: it lies whole in the arena, and no byte of it
-- lies in a taken region.
abbrev pub IsFree : Region → List Region → Pfn → Type 0
IsFree arena taken p = IsInside p arena × AllClear p taken

-- The runs come in address order: none is empty, none begins before the one ahead of it ends, and
-- all lie between the first and the last whole page of the arena.
pub gaps-IsOrdered :
    (arena : Region) (taken : List Region)
    → IsOrdered (from_addr_up arena.base) (from_addr_down (Region.end arena)) (gaps arena taken)
unfolding gaps
gaps-IsOrdered arena taken =
    let rs = ranges arena taken in
    collect-IsOrdered (length rs + 2) (length rs) rs (from_addr_down (Region.end arena))
      (from_addr_up arena.base) (omega arith)

module _ (arena : Region) (taken : List Region) (fits : IsRegion arena)
    (all : AllRegions taken) where
  gaps-covered :
      (p : Pfn)
      → covered (gaps arena taken) p ≡ (
          leb (from_addr_up arena.base) p
          && ltb p (from_addr_down (Region.end arena))
          && not (covered (ranges arena taken) p))
  unfolding gaps
  gaps-covered p =
      let rs = ranges arena taken in
      collect-covered (length rs + 2) (length rs) rs (from_addr_down (Region.end arena))
        (from_addr_up arena.base) p (omega arith)
        (ground (arith, starts_above-le rs (from_addr_up arena.base)))

  -- The runs that `gaps` yields hold a page exactly if the page lies whole in the arena and no byte of
  -- it lies in a taken region, for an arena and regions that do not wrap round the address space.
  pub gaps-IsFree : (p : Pfn) → (covered (gaps arena taken) p ≡ true) ↔ IsFree arena taken p
  gaps-IsFree p = (
    λ h.
        let inside : IsInside p arena = ground (arith, gaps-covered p) in
        (inside, (covered-ranges arena fits p inside taken all).0 (ground (arith, gaps-covered p))),
    λ free. ground (arith, gaps-covered p, (covered-ranges arena fits p free.0 taken all).1 free.1),
  )
