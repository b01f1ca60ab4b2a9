-- ===== src/Dtb.antt =====
-- src/platform: the device tree that the boot loader leaves in memory, and what the kernel looks up
-- in it. Memory is a function from addresses to bytes.
pub mod Names
pub mod Search
pub mod Cursor
pub mod Structure
pub mod Blob
pub mod Board
pub mod Within
pub mod Progress
pub mod Returns
pub mod Lookups
pub mod Finds
pub mod Discover
mod Tests
