-- ===== src/Vfs.antt =====
-- drivers/fs/vfs: the tree of nodes, and the walk along a path.
pub mod Defs
pub mod Walk
pub mod Children
mod Create
mod Open
mod Tests
