-- ===== src/Mm/Pfn.antt =====
-- src/mm/pfn.rs: page frame numbers, and `align_up`, `align_down` of src/mm/map.rs.
use zheos.Common.{ℕ, zero, suc, true, false, ◌/◌, ◌%◌, bit_and, bit_xor}
use zheos.Common.{add64, sub64, mul64, not64, ◌<<<◌, div_ceil, ◌==◌}

abbrev pub page_size : ℕ
page_size = 4096

-- The `usize` of the tuple struct.
abbrev pub Pfn : Type 0
Pfn = ℕ

abbrev pub to_addr : Pfn → ℕ
to_addr pfn = mul64 pfn page_size

abbrev pub from_addr_down : ℕ → Pfn
from_addr_down addr = addr / page_size

abbrev pub from_addr_up : ℕ → Pfn
from_addr_up addr = div_ceil addr page_size

abbrev pub offset : Pfn → ℕ → Pfn
offset pfn n = add64 pfn n

abbrev pub pages_until : Pfn → Pfn → ℕ
pages_until pfn end = sub64 end pfn

abbrev pub index_from : Pfn → Pfn → ℕ
index_from pfn base = sub64 pfn base

-- `trailing_zeros` of the low `width` bits.
unfoldable pub trailing_zeros : ℕ → ℕ → ℕ
trailing_zeros zero n = 0
trailing_zeros (suc width) n =
    let rest = trailing_zeros width (n / 2) in elim (n % 2 == 0) [ true ↦ suc rest | false ↦ 0 ]

unfoldable pub alignment_order : Pfn → ℕ
unfolding trailing_zeros
alignment_order pfn = trailing_zeros 64 pfn

unfoldable pub buddy : Pfn → ℕ → Pfn
buddy pfn order = bit_xor pfn (1 <<< order)

unfoldable pub align_up : ℕ → ℕ → ℕ
align_up addr align = bit_and (sub64 (add64 addr align) 1) (not64 (sub64 align 1))

unfoldable pub align_down : ℕ → ℕ → ℕ
align_down addr align = bit_and addr (not64 (sub64 align 1))
