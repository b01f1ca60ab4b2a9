-- ===== src/Drivers/Pl011/Reg.antt =====
-- src/drivers/pl011.rs: the offsets of the registers that are written.
use zheos.Common.{ℕ}

abbrev pub dr : ℕ
dr = 0x00

abbrev pub ibrd : ℕ
ibrd = 0x24

abbrev pub fbrd : ℕ
fbrd = 0x28

abbrev pub lcr_h : ℕ
lcr_h = 0x2c

abbrev pub cr : ℕ
cr = 0x30

abbrev pub imsc : ℕ
imsc = 0x38

abbrev pub icr : ℕ
icr = 0x44
