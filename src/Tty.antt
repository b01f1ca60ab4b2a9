-- ===== src/Tty.antt =====
-- src/tty: the console's input, from the byte that an interrupt brings to the line that the monitor
-- reads.
pub mod Input
pub mod Console
pub mod Sample
mod Tests
