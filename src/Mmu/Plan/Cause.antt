-- ===== src/Mmu/Plan/Cause.antt =====
-- src/arch/aarch64/mmu/mod.rs, `apply`: why a plan fails where nothing is mapped yet.
use Prim.Native.String.{String}
use zheos.Common.{
  ℕ, ◌+◌, ◌%◌, ◌^◌, ◌≤◌, ◌≡◌, ◌≢◌, ◌⊎◌, inl, inr, ◌∙◌, sym, arith, none, List, [], ◌∷◌, map,
}
use zheos.Mm.Pfn.{Pfn}
use zheos.Mm.PageRange.{PageRange}
use zheos.Mm.Gaps.Runs.{IsOrdered}
use zheos.Mmu.Level.{level1}
use zheos.Mmu.Descriptor.{Descriptor}
use zheos.Mmu.Table.{Words, MapError, out_of_memory, unaligned, block_in_the_way, table_in_the_way}
use zheos.Mmu.Table.Walk.{walk}
use zheos.Mmu.Table.Identity.{Within}
use zheos.Mmu.Plan.{Mapping, PlanError, no_table, overlap, failed}
use zheos.Mmu.Plan.Clash.{Clash}
use zheos.Mmu.Plan.Apart.{All}
use zheos.Mmu.Plan.Mapped.{FailedIn}
use zheos.Mmu.Plan.Gap.{gap_mapping, gap-region}

-- A mapping of that name does not begin or does not end at a page.
abbrev pub OddIn : List Mapping → String → Type 0
OddIn [] name = ⊥
OddIn (m ∷ plan) name =
    ((name ≡ m.name) × ((m.region.base % 4096 ≢ 0) ⊎ ((m.region.base + m.region.size) % 4096 ≢ 0)))
    ⊎ OddIn plan name

abbrev pub Cause : Type 0 → List Mapping → String → MapError → Type 0
Cause Dry plan name out_of_memory = Dry
Cause Dry plan name (unaligned a) = OddIn plan name
Cause Dry plan name (block_in_the_way a at) = ⊥
Cause Dry plan name (table_in_the_way a at) = ⊥

Cause-cons :
    (Dry : Type 0) (m : Mapping) (plan : List Mapping) (name : String) (e : MapError)
    → Cause Dry plan name e
    → Cause Dry (m ∷ plan) name e
Cause-cons Dry m plan name out_of_memory x = x
Cause-cons Dry m plan name (unaligned a) x = inr x
Cause-cons Dry m plan name (block_in_the_way a at) x = x
Cause-cons Dry m plan name (table_in_the_way a at) x = x

-- Nothing is in the way of a plan whose addresses are not mapped.
pub FailedIn-Cause :
    (Dry : Type 0) (words : Words) (t : ℕ) (plan : List Mapping)
    → All (λ m. (va : ℕ) → Within va m.region → walk words t va level1 ≡ none) plan
    → (name : String) (e : MapError) → FailedIn Dry words t plan name e
    → Cause Dry plan name e
FailedIn-Cause Dry words t [] blank name e x = absurd x
FailedIn-Cause Dry words t (m ∷ plan) (blank, rest) name e (inr x) =
    Cause-cons Dry m plan name e (FailedIn-Cause Dry words t plan rest name e x)
FailedIn-Cause Dry words t (m ∷ plan) (blank, rest) name out_of_memory (inl (is, x)) = x
FailedIn-Cause Dry words t (m ∷ plan) (blank, rest) name (unaligned a) (inl (is, x)) = inl (is, x)
FailedIn-Cause Dry words t (m ∷ plan) (blank, rest) name (block_in_the_way a at)
      (inl (is, (d, lo, hi, found))) =
    let both = sym (blank a (lo, hi)) ∙ found in cc
FailedIn-Cause Dry words t (m ∷ plan) (blank, rest) name (table_in_the_way a at)
      (inl (is, (x, lo, hi, (d, leaf_at, found)))) =
    let both = sym (blank x (lo, hi)) ∙ found in cc

-- Gaps begin and end at pages.
gaps-not_odd :
    (fill : Descriptor) (lo end : Pfn) (gs : List PageRange) (name : String)
    → end ≤ 2 ^ 27
    → IsOrdered lo end gs
    → ¬ OddIn (map (gap_mapping fill) gs) name
gaps-not_odd fill lo end [] name bound ordered x = x
gaps-not_odd fill lo end (g ∷ gs) name bound (a, b, c, ordered) (inr x) =
    gaps-not_odd fill g.end end gs name bound ordered x
gaps-not_odd fill lo end (g ∷ gs) name bound (a, b, c, ordered) (inl (is, inl odd)) =
    let (base, stop) = gap-region g b (omega arith) in odd (omega arith)
gaps-not_odd fill lo end (g ∷ gs) name bound (a, b, c, ordered) (inl (is, inr odd)) =
    let (base, stop) = gap-region g b (omega arith) in odd (omega arith)

-- So a gap fails for want of memory alone.
pub gaps-Cause :
    (Dry : Type 0) (plan : List Mapping) (fill : Descriptor) (lo end : Pfn) (gs : List PageRange)
    (name : String) (e : MapError)
    → end ≤ 2 ^ 27
    → IsOrdered lo end gs
    → Cause Dry (map (gap_mapping fill) gs) name e
    → Cause Dry plan name e
gaps-Cause Dry plan fill lo end gs name out_of_memory bound ordered x = x
gaps-Cause Dry plan fill lo end gs name (unaligned a) bound ordered x =
    absurd (gaps-not_odd fill lo end gs name bound ordered x)
gaps-Cause Dry plan fill lo end gs name (block_in_the_way a at) bound ordered x = x
gaps-Cause Dry plan fill lo end gs name (table_in_the_way a at) bound ordered x = x

-- Why the MMU is not turned on: no memory, two regions that reach into one another, or a region that does
-- not begin or end at a page.
abbrev pub BootFailure : Type 0 → List Mapping → PlanError → Type 0
BootFailure Dry plan no_table = Dry
BootFailure Dry plan (overlap one other) = Clash plan one other
BootFailure Dry plan (failed name e) = Cause Dry plan name e
