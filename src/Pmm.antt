-- ===== src/Pmm.antt =====
-- kern/pmm: the table of physical pages, the page allocator, the containers of the processes.
pub mod Pages
pub mod Alloc
pub mod Scan
pub mod Container
pub mod Setup
pub mod Layout
pub mod Quota
pub mod Split
pub mod Release
mod Tests
