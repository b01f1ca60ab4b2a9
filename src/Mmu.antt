-- ===== src/Mmu.antt =====
-- src/arch/aarch64/mmu: the translation tables' levels and descriptors.
pub mod Level
pub mod Descriptor
pub mod Word
pub mod RoundTrip
pub mod Walk
pub mod Table
pub mod Plan
pub mod Control
pub mod Sample
pub mod Tests
