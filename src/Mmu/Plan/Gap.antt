-- ===== src/Mmu/Plan/Gap.antt =====
-- src/arch/aarch64/mmu/mod.rs, `apply`: the gaps of the arena as mappings of their own.
use zheos.Common.{
  ℕ, ◌+◌, ◌*◌, ◌/◌, ◌^◌, ◌≤◌, ◌<◌, ◌≡◌, inl, inr, refl, ap, subst, ltb, fun_ext, arith, some, List,
  [], ◌∷◌, map, Bool-cases, true, false,
}
use zheos.Mm.Pfn.{Pfn}
use zheos.Mm.PageRange
use zheos.Mm.PageRange.{PageRange}
use zheos.Mm.Gaps.Cover.{covered}
use zheos.Mm.Gaps.Runs.{IsOrdered}
use zheos.Mmu.Descriptor.{Descriptor}
use zheos.Mmu.Word.{IsIndex}
use zheos.Mmu.Level.{level1}
use zheos.Mmu.Table.{Alloc, State, identity_map}
use zheos.Mmu.Table.Walk.{walk}
use zheos.Mmu.Table.Maps.{IsMapped}
use zheos.Mmu.Table.Identity.{Within, Outside}
use zheos.Mmu.Plan.{Mapping, map_plan, map_gaps, bind, named}
use zheos.Mmu.Plan.Apart.{All, All-map, IsMapping, AreApart, Disjoint}
use zheos.Mmu.Plan.Mapped.{IsServed, IsUntouched}

abbrev pub gap_mapping : Descriptor → PageRange → Mapping
gap_mapping fill gap = record {
  name = "unclaimed memory";
  region = PageRange.region gap;
  template = some fill;
}

-- The loop over the gaps is the loop over a plan.
pub map_gaps-map_plan :
    {H : Type 0} (alloc_layout : Alloc H) (fuel : ℕ) (s : State H) (t : ℕ) (gs : List PageRange)
    (fill : Descriptor)
    → map_gaps alloc_layout fuel s t gs fill
      ≡ map_plan alloc_layout fuel s t (map (gap_mapping fill) gs)
unfolding map_gaps map_plan
map_gaps-map_plan alloc_layout fuel s t [] fill = refl
map_gaps-map_plan alloc_layout fuel s t (g ∷ gs) fill =
    ap
      (λ k.
        bind
          (named "unclaimed memory" (identity_map alloc_layout fuel s t (PageRange.region g) fill))
          k)
      (fun_ext λ u. fun_ext λ s'. map_gaps-map_plan alloc_layout fuel s' t gs fill)

pub gap-region :
    (g : PageRange)
    → g.start < g.end
    → g.end ≤ 2 ^ 27
    → ((PageRange.region g).base ≡ g.start * 4096)
      × ((PageRange.region g).base + (PageRange.region g).size ≡ g.end * 4096)
gap-region g h bound = omega arith

gap-Outside :
    (g : PageRange) (va : ℕ)
    → g.start < g.end
    → g.end ≤ 2 ^ 27
    → PageRange.contains g (va / 4096) ≡ false
    → Outside va (PageRange.region g)
gap-Outside g va h bound e =
    let (b, stop) = gap-region g h bound in
    elim (Bool-cases (ltb (va / 4096) g.start)) [
      | inl low ↦ inl (ground arith)
      | inr high ↦ inr (ground arith)
    ]

module _ (fill : Descriptor) (end : Pfn) (bound : end ≤ 2 ^ 27) where
  pub gaps-IsMapping :
      (lo : Pfn) (gs : List PageRange)
      → IsIndex fill.attr_idx
      → IsOrdered lo end gs
      → All IsMapping (map (gap_mapping fill) gs)
  gaps-IsMapping lo [] index ordered = tt
  gaps-IsMapping lo (g ∷ gs) index (a, b, c, ordered) = (
    record {
      bound = omega (arith, (gap-region g b (omega arith)).1);
      index = λ template is.
          let one : fill ≡ template = cc in subst (λ d. IsIndex d.attr_idx) one index;
    },
    gaps-IsMapping g.end gs index ordered,
  )

  gaps-AreApart :
      (g : PageRange) (lo : Pfn) (gs : List PageRange)
      → g.start < g.end
      → g.end ≤ lo
      → g.end ≤ end
      → IsOrdered lo end gs
      → All (AreApart (gap_mapping fill g)) (map (gap_mapping fill) gs)
  gaps-AreApart g lo [] h le le' ordered = tt
  gaps-AreApart g lo (o ∷ gs) h le le' (a, b, c, ordered) = (
    λ va inside. inl (omega (arith, gap-region g h (omega arith), gap-region o b (omega arith))),
    gaps-AreApart g o.end gs h (omega arith) le' ordered,
  )

  pub gaps-Disjoint :
      (lo : Pfn) (gs : List PageRange) → IsOrdered lo end gs → Disjoint (map (gap_mapping fill) gs)
  gaps-Disjoint lo [] ordered = tt
  gaps-Disjoint lo (g ∷ gs) (a, b, c, ordered) =
      (gaps-AreApart g g.end gs b (omega arith) c ordered, gaps-Disjoint g.end gs ordered)

  -- An address in no gap is left alone.
  pub gaps-IsUntouched :
      (lo : Pfn) (gs : List PageRange) (va : ℕ)
      → IsOrdered lo end gs
      → covered gs (va / 4096) ≡ false
      → All (IsUntouched va) (map (gap_mapping fill) gs)
  unfolding covered
  gaps-IsUntouched lo [] va ordered e = tt
  gaps-IsUntouched lo (g ∷ gs) va (a, b, c, ordered) e = (
    inr (gap-Outside g va b (omega arith) (ground arith)),
    gaps-IsUntouched g.end gs va ordered (ground arith),
  )

  pub gaps-IsMapped :
      {H : Type 0} (s : State H) (t : ℕ) (lo : Pfn) (gs : List PageRange) (va : ℕ)
      → IsOrdered lo end gs
      → covered gs (va / 4096) ≡ true
      → All (IsServed s t) (map (gap_mapping fill) gs)
      → IsMapped fill va (walk s.words t va level1)
  unfolding covered
  gaps-IsMapped s t lo [] va ordered e served = cc
  gaps-IsMapped s t lo (g ∷ gs) va (a, b, c, ordered) e (here, rest) =
      elim (Bool-cases (PageRange.contains g (va / 4096))) [
        | inl inside ↦
            let (base, stop) = gap-region g b (omega arith) in
            here fill refl va (ground arith, ground arith)
        | inr outside ↦ gaps-IsMapped s t g.end gs va ordered (ground arith) rest
      ]

  -- The addresses of a gap lie in its pages.
  pub gaps-covered-Within :
      (lo : Pfn) (gs : List PageRange)
      → IsOrdered lo end gs
      → All
          (λ m. (va : ℕ) → Within va m.region → covered gs (va / 4096) ≡ true)
          (map (gap_mapping fill) gs)
  unfolding covered
  gaps-covered-Within lo [] ordered = tt
  gaps-covered-Within lo (g ∷ gs) (a, b, c, ordered) = (
    λ va inside. let (base, stop) = gap-region g b (omega arith) in ground arith,
    All-map (λ m. (va : ℕ) → Within va m.region → covered gs (va / 4096) ≡ true)
        (λ m. (va : ℕ) → Within va m.region → covered (g ∷ gs) (va / 4096) ≡ true)
        (map (gap_mapping fill) gs) (λ m h va inside. ground (arith, h va inside))
        (gaps-covered-Within g.end gs ordered),
  )
