-- ===== src/Heap.antt =====
-- src/system/memory/heap/heap.cpp: the kernel's heap, a chain of blocks with a header each, whose sizes
-- are powers of two. Addresses are numbers below 2 ^ 64, and `nullptr` is 0.
pub mod Defs
pub mod Chain
pub mod Pair
pub mod Required
pub mod Split
pub mod Search
pub mod Coalesce
pub mod Entry
mod Tests
