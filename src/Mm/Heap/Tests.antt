-- ===== src/Mm/Heap/Tests.antt =====
-- Runs of src/mm/heap.rs, and its theorems at them.
use zheos.Common.{◌≡◌, refl, none, some, arith}
use zheos.Mm.Frames.{ilog2}
use zheos.Mm.Layout.{Layout, class_from, class_of}
use zheos.Mm.Heap.{order_of, next_power_of_two, next_power_from}
use zheos.Mm.Heap.Sizes.{BlockServes, order_of_lem}

abbrev node : Layout
node = record { size = 24; align = 16 }

abbrev image : Layout
image = record { size = 0x5001; align = 0x1_0000 }

class_of-node : class_of node ≡ some 2
unfolding class_from class_of
class_of-node = refl

class_of-image : class_of image ≡ none
unfolding class_from class_of
class_of-image = refl

order_of-image : order_of image ≡ 4
unfolding order_of next_power_of_two next_power_from ilog2
order_of-image = refl

order_of_lem_example : BlockServes image (order_of image)
order_of_lem_example = order_of_lem image 16 (omega arith) refl (omega arith)
