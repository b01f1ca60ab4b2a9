-- ===== src/Mm/Map/Reserve.antt =====
-- `reserve` of src/mm/map.rs, and what `unreserved` hands out after it.
use zheos.Common.{
  ℕ, ◌%◌, ◌∙◌, ◌+◌, ◌≤◌, ◌<◌, ◌≡◌, ◌^◌, refl, ap, sym, subst, true, none, some, ◌↔◌, arith,
}
use zheos.Common.{List, [], ◌∷◌, ◌++◌, zero, suc, length, set, take, length-set, length-replicate}
use zheos.Mm.Pfn.{Pfn}
use zheos.Mm.Region
use zheos.Mm.Region.{Region}
use zheos.Mm.Gaps.Cover.{covered}
use zheos.Mm.Gaps.Bytes.{IsRegion, IsInside, IsClear, AllRegions, AllClear, gaps-IsFree}
use zheos.Mm.Map.{MemoryMap, new, reserve, taken, unreserved}
use zheos.Mm.Map.Align.{align_up-pow, align_down-pow}

pub record IsValid (map : MemoryMap) : Type 0 where
  pub slots : length map.reserved ≡ 16
  pub used : map.len ≤ 16
  pub arena : IsRegion map.arena
  pub aligned : (map.arena.base % 4096 ≡ 0) × (map.arena.size % 4096 ≡ 0)
  pub regions : AllRegions (taken map)

take-set :
    {A : Type 0} (n : ℕ) (xs : List A) (x : A)
    → n < length xs
    → take (n + 1) (set xs n x) ≡ take n xs ++ (x ∷ [])
take-set n [] x h = absurd (omega arith)
take-set zero (y ∷ ys) x h = refl
take-set (suc n) (y ∷ ys) x h =
    let e : suc n + 1 ≡ suc (n + 1) = omega arith in
    rw e (ap (λ t. y ∷ t) (take-set n ys x (omega arith)))

AllRegions-append :
    (rs : List Region) (r : Region) → AllRegions rs → IsRegion r → AllRegions (rs ++ (r ∷ []))
AllRegions-append [] r h k = (k, tt)
AllRegions-append (x ∷ rs) r h k = (h.0, AllRegions-append rs r h.1 k)

AllClear-append :
    (p : Pfn) (rs : List Region) (r : Region)
    → AllClear p (rs ++ (r ∷ [])) ↔ (AllClear p rs × IsClear p r)
AllClear-append p [] r = (λ h. (tt, h.0), λ h. (h.1, tt))
AllClear-append p (x ∷ rs) r =
    let (to, from) = AllClear-append p rs r in
    (λ h. let (a, b) = to h.1 in ((h.0, a), b), λ h. (h.0.0, from (h.0.1, h.1)))

pub new-IsValid :
    (memory : Region) {map : MemoryMap}
    → IsRegion memory
    → memory.base + 4096 ≤ 2 ^ 64
    → new memory ≡ some map
    → IsValid map
unfolding new taken
new-IsValid memory {map} fits room e =
    let up = align_up-pow memory.base 52 12 refl room in
    let down = align_down-pow (memory.base + memory.size) 52 12 refl fits in
    record {
      slots = ground (arith, length-replicate 16 Region.empty);
      used = ground arith;
      arena = ground (arith, up, down);
      aligned = (ground (arith, up, down), ground (arith, up, down));
      regions =
          let none_yet : map.len ≡ 0 = ground arith in
          subst (λ n. AllRegions (take n map.reserved)) (sym none_yet) tt;
    }

-- `reserve` appends the region, unless all sixteen slots are in use.
pub reserve-taken :
    {map map' : MemoryMap} (r : Region)
    → IsValid map
    → reserve map r ≡ some map'
    → (taken map' ≡ taken map ++ (r ∷ [])) × (map'.arena ≡ map.arena)
unfolding reserve taken
reserve-taken {map} r v e = ground (arith, take-set map.len map.reserved r)

reserve-slots :
    {map map' : MemoryMap} (r : Region)
    → IsValid map
    → reserve map r ≡ some map'
    → (length map'.reserved ≡ 16) × (map'.len ≤ 16)
unfolding reserve
reserve-slots {map} r v e = ground (arith, length-set map.reserved map.len r)

pub reserve-none : (map : MemoryMap) (r : Region) → (reserve map r ≡ none) ↔ (16 ≤ map.len)
unfolding reserve
reserve-none map r = ground arith

pub reserve-IsValid :
    {map map' : MemoryMap} (r : Region)
    → IsValid map
    → IsRegion r
    → reserve map r ≡ some map'
    → IsValid map'
reserve-IsValid {map} {map'} r v fits e =
    let (here, arena) = reserve-taken r v e in
    let (slots, used) = reserve-slots r v e in
    record {
      slots = slots;
      used = used;
      arena = subst IsRegion (sym arena) v.arena;
      aligned = (
        ap (λ a. a.base % 4096) arena ∙ v.aligned.0,
        ap (λ a. a.size % 4096) arena ∙ v.aligned.1,
      );
      regions = subst AllRegions (sym here) (AllRegions-append (taken map) r v.regions fits);
    }

-- After a successful `reserve` the pages handed out by `unreserved` are those handed out before it,
-- less every page that the region touches.
pub reserve-unreserved :
    {map map' : MemoryMap} (r : Region) (p : Pfn)
    → IsValid map
    → IsRegion r
    → reserve map r ≡ some map'
    → (covered (unreserved map') p ≡ true) ↔ ((covered (unreserved map) p ≡ true) × IsClear p r)
unfolding unreserved
reserve-unreserved {map} {map'} r p v fits e =
    let v' = reserve-IsValid r v fits e in
    let (here, arena) = reserve-taken r v e in
    let (out, in') = gaps-IsFree map.arena (taken map) v.arena v.regions p in
    let (out', in'') = gaps-IsFree map'.arena (taken map') v'.arena v'.regions p in
    let (split, join) = AllClear-append p (taken map) r in
    (
      λ h.
          let (inside, clear) = out' h in
          let (old, new) = split (subst (AllClear p) here clear) in
          (in' (subst (IsInside p) arena inside, old), new),
      λ (h, new).
          let (inside, old) = out h in
          in'' (
            subst (IsInside p) (sym arena) inside,
            subst (AllClear p) (sym here) (join (old, new)),
          ),
    )
