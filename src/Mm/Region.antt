-- ===== src/Mm/Region.antt =====
-- src/mm/region.rs, `Region`: a range of physical addresses.
use zheos.Common.{ℕ, add64}

pub record Region : Type 0 where
  pub base : ℕ
  pub size : ℕ

abbrev pub empty : Region
empty = record { base = 0; size = 0 }

abbrev pub end : Region → ℕ
end r = add64 r.base r.size
