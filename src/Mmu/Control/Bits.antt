-- ===== src/Mmu/Control/Bits.antt =====
-- src/arch/aarch64/mmu/init.rs, `mod bits`: where the fields of TCR_EL1 stand.
use zheos.Common.{ℕ}

abbrev pub t0sz : ℕ
t0sz = 0

abbrev pub irgn0 : ℕ
irgn0 = 8

abbrev pub orgn0 : ℕ
orgn0 = 10

abbrev pub sh0 : ℕ
sh0 = 12

abbrev pub tg0 : ℕ
tg0 = 14

abbrev pub epd1 : ℕ
epd1 = 23

abbrev pub tg1 : ℕ
tg1 = 30

abbrev pub ips : ℕ
ips = 32
