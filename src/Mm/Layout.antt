-- ===== src/Mm/Layout.antt =====
-- `core::alloc::Layout` as src/mm uses it, and the size classes of src/mm/slab/mod.rs.
use zheos.Common.{ℕ, ◌+◌, Option, none, some, Bool, List, [], ◌∷◌, map}
use zheos.Common.{ltb, ◌==◌, if◌then◌else◌, sub64, bit_and}
use zheos.Mm.Pfn.{trailing_zeros}

pub record Layout : Type 0 where
  pub size : ℕ
  pub align : ℕ

abbrev pub classes : List ℕ
classes = 8 ∷ 16 ∷ 32 ∷ 64 ∷ 128 ∷ 256 ∷ 512 ∷ 1024 ∷ 2048 ∷ []

abbrev pub classes_count : ℕ
classes_count = 9

unfoldable pub shifts : List ℕ
unfolding trailing_zeros
shifts = map (trailing_zeros 64) classes

abbrev pub is_multiple_of_pow2 : ℕ → ℕ → Bool
is_multiple_of_pow2 value multiple = bit_and value (sub64 multiple 1) == 0

-- The loop of `class_of` over the classes from index `i` on.
unfoldable pub class_from : ℕ → List ℕ → Layout → Option ℕ
class_from i [] layout = none
class_from i (c ∷ cs) layout =
    let rest = class_from (i + 1) cs layout in
    if ltb c layout.size
    then rest
    else (if is_multiple_of_pow2 c layout.align then some i else rest)

unfoldable pub class_of : Layout → Option ℕ
unfolding class_from
class_of layout = class_from 0 classes layout
