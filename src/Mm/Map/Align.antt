-- ===== src/Mm/Map/Align.antt =====
-- `align_up` and `align_down` of src/mm/map.rs at a power of two, and the arena of a new map.
use native.Mathlib.Nat.{div-lt_iff_lt-mul, one-le-pow, mod-eq_of_lt}
use zheos.Common.{
  ℕ, ◌+◌, ◌-◌, ◌*◌, ◌/◌, ◌^◌, ◌≤◌, ◌<◌, ◌≡◌, refl, sym, subst, ap₂, add64, sub64, not64, ◌∙◌, ap,
  none, some, ◌↔◌, arith, bit_and,
}
use zheos.Common.Bits.{bit_and-shifted, bit_and-mask, pow-add}
use zheos.Mm.Pfn.{Pfn, align_up, align_down}
use zheos.Mm.Region.{Region}
use zheos.Mm.Gaps.Bytes.{IsRegion, IsInside}
use zheos.Mm.Map.{MemoryMap, new}

-- The mask of the high bits: `(2 ^ j - 1) <<< k`.
mask_high : (a j k : ℕ) → a < 2 ^ (j + k) → bit_and a ((2 ^ j - 1) * 2 ^ k) ≡ a / 2 ^ k * 2 ^ k
mask_high a j k h =
    let small : a / 2 ^ k < 2 ^ j =
      (div-lt_iff_lt-mul (one-le-pow k 2 (omega arith))).1 (omega (arith, pow-add j k)) in
    bit_and-shifted k a (2 ^ j - 1)
    ∙ ap (λ t. t * 2 ^ k) (bit_and-mask j (a / 2 ^ k) ∙ mod-eq_of_lt small)

high_mask : (j k : ℕ) → j + k ≡ 64 → not64 (sub64 (2 ^ k) 1) ≡ (2 ^ j - 1) * 2 ^ k
high_mask j k e =
    let whole : 2 ^ j * 2 ^ k ≡ 2 ^ 64 = sym (pow-add j k) ∙ ap (λ t. 2 ^ t) e in
    let m : ℕ = 2 ^ j - 1 in
    let top : 2 ^ j ≡ m + 1 = omega (arith, one-le-pow j 2 (omega arith)) in
    let split : m * 2 ^ k + 2 ^ k ≡ 2 ^ 64 = omega (arith, ap (λ (t : ℕ). t * 2 ^ k) top, whole) in
    omega (arith, split, one-le-pow k 2 (omega arith))

-- `align_down` rounds to the multiple of the power of two at or below the address.
pub align_down-pow :
    (a j k : ℕ) → j + k ≡ 64 → a < 2 ^ 64 → align_down a (2 ^ k) ≡ a / 2 ^ k * 2 ^ k
unfolding align_down
align_down-pow a j k e h =
    ap (bit_and a) (high_mask j k e) ∙ mask_high a j k (subst (λ t. a < 2 ^ t) (sym e) h)

-- `align_up` rounds to the multiple at or above it, where that lies in the address space.
pub align_up-pow :
    (a j k : ℕ)
    → j + k ≡ 64
    → a + 2 ^ k ≤ 2 ^ 64
    → align_up a (2 ^ k) ≡ (a + 2 ^ k - 1) / 2 ^ k * 2 ^ k
unfolding align_up
align_up-pow a j k e h =
    let one : 1 ≤ 2 ^ k = one-le-pow k 2 (omega arith) in
    let up : sub64 (add64 a (2 ^ k)) 1 ≡ a + 2 ^ k - 1 = omega (arith, one) in
    ap₂ bit_and up (high_mask j k e)
    ∙ mask_high (a + 2 ^ k - 1) j k
        (subst (λ t. a + 2 ^ k - 1 < 2 ^ t) (sym e) (omega (arith, one)))

-- A new map has for its arena the whole pages of the memory, neither more nor fewer.
pub new-IsInside :
    (memory : Region) (map : MemoryMap) (p : Pfn)
    → IsRegion memory
    → memory.base + 4096 ≤ 2 ^ 64
    → new memory ≡ some map
    → IsInside p map.arena ↔ IsInside p memory
unfolding new
new-IsInside memory map p fits room e =
    let up = align_up-pow memory.base 52 12 refl room in
    let down = align_down-pow (memory.base + memory.size) 52 12 refl fits in
    (ground (arith, up, down), ground (arith, up, down))

-- Memory that is refused holds no whole page.
pub new-none :
    (memory : Region) (p : Pfn)
    → IsRegion memory
    → memory.base + 4096 ≤ 2 ^ 64
    → new memory ≡ none
    → ¬ IsInside p memory
unfolding new
new-none memory p fits room e inside =
    let up = align_up-pow memory.base 52 12 refl room in
    let down = align_down-pow (memory.base + memory.size) 52 12 refl fits in
    ground (arith, up, down)
