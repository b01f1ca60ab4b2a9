-- ===== src/Mm/Gaps/Runs.antt =====
-- What the iterator of src/mm/gaps.rs yields: the pages of the arena outside the ranges, as runs in
-- address order, and it ends.
use zheos.Common.{ℕ, zero, suc, ◌+◌, ◌≤◌, ◌<◌, ◌≡◌, true, false, not, ◌&&◌, none, some}
use zheos.Common.{
  min, List, [], ◌∷◌, arith, subst, ltb, leb, if◌then◌else◌, length, Option-cases, inl, inr,
}
use zheos.Mm.Pfn.{Pfn}
use zheos.Mm.PageRange.{PageRange}
use zheos.Mm.Gaps.{next_base_above, skip, next, collect}
use zheos.Mm.Gaps.Cover.{covered, ends_above-le, starts_above, starts_above_mono}
use zheos.Mm.Gaps.Cover.{skip-Skipped, base_or, next_base_above-bound, not-covered_before_base}

-- The calls that the iterator still answers from cursor `c`, the last of which says that it is done.
abbrev calls_left : List PageRange → Pfn → Pfn → ℕ
calls_left rs end c = if leb end c then 1 else starts_above rs c + 2

-- A run from cursor `c`: the pages that the loop skipped are covered, those of the run are not.
record Runs (rs : List PageRange) (end c : Pfn) (run : PageRange) : Type 0 where
  above : c ≤ run.start
  some_page : run.start < run.end
  inside : run.end ≤ end
  behind : (q : Pfn) → c ≤ q → q < run.start → covered rs q ≡ true
  free : (q : Pfn) → run.start ≤ q → q < run.end → covered rs q ≡ false
  fewer : calls_left rs end run.end < calls_left rs end c

abbrev run_from : List PageRange → Pfn → Pfn → PageRange
run_from rs end s = record { start = s; end = min (base_or rs s end) end }

base_or-lt : (rs : List PageRange) (s end : Pfn) → s < end → s < min (base_or rs s end) end
base_or-lt rs s end h = elim (Option-cases (next_base_above rs s)) [
  | inl e ↦ rw (e, base_or) (omega arith)
  | inr (b, e) ↦ rw (e, base_or) (omega (arith, next_base_above-bound rs s b e))
]

calls_left-run :
    (rs : List PageRange) (c s end : Pfn)
    → c ≤ s
    → s < end
    → calls_left rs end (min (base_or rs s end) end) < calls_left rs end c
calls_left-run rs c s end h l = elim (Option-cases (next_base_above rs s)) [
  | inl e ↦ rw (e, base_or) (ground arith)
  | inr (b, e) ↦
      let (up, down) = next_base_above-bound rs s b e in
      rw (e, base_or) (ground (arith, starts_above_mono rs c s h))
]

next-none :
    (fuel : ℕ) (rs : List PageRange) (end c : Pfn)
    → length rs ≤ fuel
    → next fuel rs end c ≡ none
    → (q : Pfn) → c ≤ q
    → q < end
    → covered rs q ≡ true
unfolding next
next-none fuel rs end c f e q h l =
    let sk = skip-Skipped fuel rs c (omega (arith, ends_above-le rs c)) in
    sk.behind q h (ground arith)

next-some :
    (fuel : ℕ) (rs : List PageRange) (end c : Pfn) {run : PageRange}
    → length rs ≤ fuel
    → next fuel rs end c ≡ some run
    → Runs rs end c run
unfolding next
next-some fuel rs end c {run} f e =
    let s = skip fuel rs c in
    let sk = skip-Skipped fuel rs c (omega (arith, ends_above-le rs c)) in
    let before : s < end = ground arith in
    let same : run_from rs end s ≡ run = ground arith in
    subst (Runs rs end c) same (record {
      above = sk.above;
      some_page = base_or-lt rs s end before;
      inside = omega arith;
      behind = sk.behind;
      free = λ q h l. not-covered_before_base rs s end q sk.clear h l;
      fewer = calls_left-run rs c s end sk.above before;
    })

pub collect-covered :
    (k fuel : ℕ) (rs : List PageRange) (end c p : Pfn)
    → length rs ≤ fuel
    → calls_left rs end c ≤ k
    → covered (collect k fuel rs end c) p ≡ (leb c p && ltb p end && not (covered rs p))
unfolding collect covered
collect-covered zero fuel rs end c p f m = absurd (ground arith)
collect-covered (suc k) fuel rs end c p f m = elim (Option-cases (next fuel rs end c)) [
  | inl e ↦ rw (e, collect) (ground (arith, next-none fuel rs end c f e p))
  | inr (run, e) ↦
      let r = next-some fuel rs end c f e in
      rw (e, collect)
        (ground (arith, r.behind p, r.free p, collect-covered k fuel rs end run.end p))
]

-- Runs in address order from `lo`: none is empty, none goes past `end`, and none begins before the
-- one ahead of it has ended.
abbrev pub IsOrdered : Pfn → Pfn → List PageRange → Type 0
IsOrdered lo end [] = Unit
IsOrdered lo end (r ∷ rs) =
    (lo ≤ r.start) × (r.start < r.end) × (r.end ≤ end) × IsOrdered r.end end rs

pub collect-IsOrdered :
    (k fuel : ℕ) (rs : List PageRange) (end c : Pfn)
    → length rs ≤ fuel
    → IsOrdered c end (collect k fuel rs end c)
unfolding collect
collect-IsOrdered zero fuel rs end c f = tt
collect-IsOrdered (suc k) fuel rs end c f = elim (Option-cases (next fuel rs end c)) [
  | inl e ↦ rw (e, collect) tt
  | inr (run, e) ↦
      let r = next-some fuel rs end c f e in
      rw (e, collect) (r.above, r.some_page, r.inside, collect-IsOrdered k fuel rs end run.end f)
]
