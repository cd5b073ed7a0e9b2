-- ===== src/Disk.antt =====
-- The block store modules of src/block.
pub mod Ram
pub mod Map
pub mod Prot
pub mod Part
pub mod Stat
pub mod Debug
pub mod Raid0
pub mod Raid1
pub mod Raid4
pub mod Combine
pub mod Check
pub mod Slots
pub mod Clock
pub mod WtClock
pub mod Tree
pub mod Stack
mod Tests
