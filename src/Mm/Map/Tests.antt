-- ===== src/Mm/Map/Tests.antt =====
-- Runs of src/mm/map.rs, and its theorems at them.
use zheos.Common.{◌≡◌, refl, ◌*◌, ◌/◌, ◌+◌, ◌-◌, ◌^◌, true, some, ◌↔◌, [], ◌∷◌, arith, replicate}
use zheos.Mm.Region
use zheos.Mm.Region.{Region}
use zheos.Mm.PageRange
use zheos.Mm.Pfn.{align_up, align_down}
use zheos.Mm.Gaps.{gaps}
use zheos.Mm.Gaps.Cover.{covered}
use zheos.Mm.Gaps.Bytes.{IsInside, IsClear}
use zheos.Mm.Map.{MemoryMap, new, reserve, unreserved}
use zheos.Mm.Map.Align.{align_up-pow, align_down-pow, new-IsInside, new-none}
use zheos.Mm.Map.Reserve.{new-IsValid, reserve-unreserved}

abbrev ram : Region
ram = record { base = 0x4000_0001; size = 0x4fff }

abbrev whole : MemoryMap
whole = record {
  arena = record { base = 0x4000_1000; size = 0x4000 };
  reserved = replicate 16 Region.empty;
  len = 0;
}

abbrev image : Region
image = record { base = 0x4000_2000; size = 0x10 }

abbrev less : MemoryMap
less = record whole { reserved = image ∷ replicate 15 Region.empty; len = 1 }

new-ram : new ram ≡ some whole
unfolding new align_up align_down
new-ram = refl

reserve-image : reserve whole image ≡ some less
unfolding reserve
reserve-image = refl

unreserved-less :
    unreserved less
    ≡ record { start = 0x4_0001; end = 0x4_0002 } ∷ record { start = 0x4_0003; end = 0x4_0005 } ∷ []
unfolding unreserved gaps PageRange.new
unreserved-less = refl

align_down-pow_example : align_down 0x1234 (2 ^ 12) ≡ 0x1234 / 2 ^ 12 * 2 ^ 12
align_down-pow_example = align_down-pow 0x1234 52 12 refl (omega arith)

align_up-pow_example : align_up 0x1234 (2 ^ 12) ≡ (0x1234 + 2 ^ 12 - 1) / 2 ^ 12 * 2 ^ 12
align_up-pow_example = align_up-pow 0x1234 52 12 refl (omega arith)

new-IsInside_example : IsInside 0x4_0001 whole.arena ↔ IsInside 0x4_0001 ram
new-IsInside_example = new-IsInside ram whole 0x4_0001 (omega arith) (omega arith) new-ram

new-none_example : ¬ IsInside 1 (record { base = 0x1001; size = 0xffe })
unfolding new align_up align_down
new-none_example =
    new-none (record { base = 0x1001; size = 0xffe }) 1 (omega arith) (omega arith) refl

reserve-unreserved_example :
    (covered (unreserved less) 0x4_0003 ≡ true)
    ↔ ((covered (unreserved whole) 0x4_0003 ≡ true) × IsClear 0x4_0003 image)
reserve-unreserved_example =
    reserve-unreserved image 0x4_0003 (new-IsValid ram (omega arith) (omega arith) new-ram)
      (omega arith) reserve-image
