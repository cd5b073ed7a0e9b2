-- ===== src/Disk/Tree.antt =====
-- src/block/treedisk.c: files as trees of blocks, in one inode of the store below.
pub mod Layout
pub mod Access
pub mod FreeList
pub mod Files
pub mod Methods
pub mod Create
pub mod Writing
mod Tests
