-- ===== src/Kernel.antt =====
-- src/kernel: tasks, the scheduler, the clock and interrupts.
pub mod Task
pub mod Sched
pub mod Time
pub mod Irq
mod Tests
