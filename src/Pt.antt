-- ===== src/Pt.antt =====
-- src/kernel/pt.c and pt.h: page tables and virtual memory areas.
pub mod Entry
pub mod Codec
pub mod Path
pub mod Write
pub mod Mapping
pub mod Alloc
pub mod Salloc
pub mod Walk
pub mod Page
pub mod Vma
pub mod Init
pub mod Lookup
pub mod Unmap
pub mod Mapped
pub mod Boundary
pub mod Placed
pub mod Progress
pub mod Ends
mod Tests
