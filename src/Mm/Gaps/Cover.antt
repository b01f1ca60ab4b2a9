-- ===== src/Mm/Gaps/Cover.antt =====
-- The `while` loop of src/mm/gaps.rs: what `skip` leaves behind, and that it ends.
use zheos.Common.{ℕ, zero, suc, ◌+◌, ◌≤◌, ◌<◌, ◌≡◌, refl, Bool, true, false, ◌||◌, none, some}
use zheos.Common.{min, List, [], ◌∷◌, arith, ltb, if◌then◌else◌, length, Option-cases, inl, inr}
use native.Mathlib.Decide.{dec_lt}
use zheos.Mm.Pfn.{Pfn}
use zheos.Mm.PageRange
use zheos.Mm.PageRange.{PageRange}
use zheos.Mm.Gaps.{containing, next_base_above, skip}

-- Some range contains the page.
unfoldable pub covered : List PageRange → Pfn → Bool
covered [] p = false
covered (r ∷ rs) p = PageRange.contains r p || covered rs p

-- How many ranges end above the page, and how many start above it.
pub ends_above : List PageRange → Pfn → ℕ
ends_above [] p = 0
ends_above (r ∷ rs) p = (if ltb p r.end then 1 else 0) + ends_above rs p

pub starts_above : List PageRange → Pfn → ℕ
starts_above [] p = 0
starts_above (r ∷ rs) p = (if ltb p r.start then 1 else 0) + starts_above rs p

pub ends_above-le : (rs : List PageRange) (p : Pfn) → ends_above rs p ≤ length rs
unfolding ends_above
ends_above-le [] p = omega arith
ends_above-le (r ∷ rs) p = ground (arith, ends_above-le rs p)

pub starts_above-le : (rs : List PageRange) (p : Pfn) → starts_above rs p ≤ length rs
unfolding starts_above
starts_above-le [] p = omega arith
starts_above-le (r ∷ rs) p = ground (arith, starts_above-le rs p)

ends_above_mono : (rs : List PageRange) (p q : Pfn) → p ≤ q → ends_above rs q ≤ ends_above rs p
unfolding ends_above
ends_above_mono [] p q h = omega arith
ends_above_mono (r ∷ rs) p q h = ground (arith, ends_above_mono rs p q h)

pub starts_above_mono :
    (rs : List PageRange) (p q : Pfn) → p ≤ q → starts_above rs q ≤ starts_above rs p
unfolding starts_above
starts_above_mono [] p q h = omega arith
starts_above_mono (r ∷ rs) p q h = ground (arith, starts_above_mono rs p q h)

pub not-covered_of_none :
    (rs : List PageRange) (p : Pfn) → containing rs p ≡ none → covered rs p ≡ false
unfolding containing covered
not-covered_of_none [] p e = refl
not-covered_of_none (r ∷ rs) p e = ground (arith, not-covered_of_none rs p)

containing_mono :
    (rs : List PageRange) (p stop : Pfn)
    → containing rs p ≡ some stop
    → (p < stop) × (ends_above rs stop < ends_above rs p)
unfolding containing ends_above
containing_mono [] p stop e = absurd (ground arith)
containing_mono (r ∷ rs) p stop e =
    ground (arith, containing_mono rs p stop, ends_above_mono rs p stop)

containing-covered :
    (rs : List PageRange) (p stop q : Pfn)
    → containing rs p ≡ some stop
    → p ≤ q
    → q < stop
    → covered rs q ≡ true
unfolding containing covered
containing-covered [] p stop q e h l = absurd (ground arith)
containing-covered (r ∷ rs) p stop q e h l = ground (arith, containing-covered rs p stop q)

-- What the loop does from `c` when it ends at `s`.
pub record Skipped (rs : List PageRange) (c s : Pfn) : Type 0 where
  pub above : c ≤ s
  pub clear : covered rs s ≡ false
  pub behind : (q : Pfn) → c ≤ q → q < s → covered rs q ≡ true

Skipped-here : (rs : List PageRange) (c : Pfn) → containing rs c ≡ none → Skipped rs c c
Skipped-here rs c e = record {
  above = omega arith;
  clear = not-covered_of_none rs c e;
  behind = λ q h l. absurd (omega arith);
}

Skipped-on :
    (rs : List PageRange) (c stop : Pfn) {s : Pfn}
    → containing rs c ≡ some stop
    → Skipped rs stop s
    → Skipped rs c s
Skipped-on rs c stop e sk = record {
  above = omega (arith, containing_mono rs c stop e, sk.above);
  clear = sk.clear;
  behind = λ q h l. elim (dec_lt q stop) [
    | yes before ↦ containing-covered rs c stop q e h before
    | no after ↦ sk.behind q (omega arith) l
  ];
}

-- With one unit of fuel for each range that ends above the cursor, the loop ends by its test.
pub skip-Skipped :
    (fuel : ℕ) (rs : List PageRange) (c : Pfn)
    → ends_above rs c ≤ fuel
    → Skipped rs c (skip fuel rs c)
unfolding skip
skip-Skipped zero rs c h = elim (Option-cases (containing rs c)) [
  | inl e ↦ Skipped-here rs c e
  | inr (stop, e) ↦ absurd (omega (arith, containing_mono rs c stop e))
]
skip-Skipped (suc fuel) rs c h = elim (Option-cases (containing rs c)) [
  | inl e ↦ rw (e, skip) (Skipped-here rs c e)
  | inr (stop, e) ↦
      let (up, down) = containing_mono rs c stop e in
      rw (e, skip) (Skipped-on rs c stop e (skip-Skipped fuel rs stop (omega arith)))
]

-- The next base above a page that no range covers bounds a run of pages that none covers.
pub next_base_above-bound :
    (rs : List PageRange) (p b : Pfn)
    → next_base_above rs p ≡ some b
    → (p < b) × (starts_above rs b < starts_above rs p)
unfolding next_base_above starts_above
next_base_above-bound [] p b e = absurd (ground arith)
next_base_above-bound (r ∷ rs) p b e =
    ground (arith, next_base_above-bound rs p b, starts_above_mono rs p b)

abbrev pub base_or : List PageRange → Pfn → Pfn → Pfn
base_or rs p end = elim (next_base_above rs p) [ none ↦ end | some b ↦ b ]

base_or-cons :
    (r : PageRange) (rs : List PageRange) (p end : Pfn)
    → min (base_or (r ∷ rs) p end) end ≤ min (base_or rs p end) end
unfolding next_base_above
base_or-cons r rs p end = ground arith

base_or-le :
    (r : PageRange) (rs : List PageRange) (p end : Pfn)
    → p < r.start
    → min (base_or (r ∷ rs) p end) end ≤ r.start
unfolding next_base_above
base_or-le r rs p end h = ground arith

pub not-covered_before_base :
    (rs : List PageRange) (s end p : Pfn)
    → covered rs s ≡ false
    → s ≤ p
    → p < min (base_or rs s end) end
    → covered rs p ≡ false
unfolding covered
not-covered_before_base [] s end p clear h l = refl
not-covered_before_base (r ∷ rs) s end p clear h l =
    ground
      (arith, base_or-cons r rs s end, base_or-le r rs s end, not-covered_before_base rs s end p)
