-- ===== src/Mm.antt =====
-- src/mm: physical memory, from the map of what is taken to the page allocator.
pub mod Pfn
pub mod Region
pub mod PageRange
pub mod Image
pub mod Gaps
pub mod Map
pub mod Entry
pub mod Pages
pub mod FreeLists
pub mod Frames
pub mod Layout
pub mod Slab
pub mod Cache
pub mod Heap
