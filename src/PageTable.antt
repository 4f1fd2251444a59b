-- ===== src/PageTable.antt =====
-- src/system/memory/vMemory: the entries of the page tables, and the walk over four or five levels.
pub mod Entry
pub mod Flags
pub mod Address
pub mod Walk
pub mod Laws
mod Mapped
mod Tests
