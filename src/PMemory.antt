-- ===== src/PMemory.antt =====
-- src/system/memory/pMemory/pMemory.cpp: the allocator of physical pages, over the bitmap.
-- A pointer is a number and `nullptr` is 0. The bitmap is a set bit for a page in use.
pub mod Defs
pub mod Range
pub mod Scan
pub mod Alloc
pub mod Free
pub mod Realloc
mod Tests
