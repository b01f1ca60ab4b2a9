-- ===== src/Mm/Image.antt =====
-- src/mm/image.rs: the parts of the kernel's image, by the addresses that the linker script gives.
use zheos.Common.{ℕ, sub64}
use zheos.Mm.Region.{Region}

-- The symbols of the linker script.
pub record Symbols : Type 0 where
  pub image_start : ℕ
  pub exec_end : ℕ
  pub rodata_end : ℕ
  pub stack_guard_start : ℕ
  pub stack_bottom : ℕ
  pub stack_top : ℕ

abbrev pub between : ℕ → ℕ → Region
between start end = record { base = start; size = sub64 end start }

abbrev pub image : Symbols → Region
image s = between s.image_start s.stack_top

abbrev pub executable : Symbols → Region
executable s = between s.image_start s.exec_end

abbrev pub rodata : Symbols → Region
rodata s = between s.exec_end s.rodata_end

abbrev pub writable_data : Symbols → Region
writable_data s = between s.rodata_end s.stack_guard_start

abbrev pub stack_guard : Symbols → Region
stack_guard s = between s.stack_guard_start s.stack_bottom

abbrev pub stack : Symbols → Region
stack s = between s.stack_bottom s.stack_top
