-- ===== src/Drivers.antt =====
-- src/drivers: the UART and the interrupt controller, by the registers that the code reads and writes.
pub mod Pl011
pub mod Gic
mod Tests
