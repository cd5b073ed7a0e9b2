-- ===== src/Disk/Tree/Writing.antt =====
-- What `treedisk_write` of src/block/treedisk.c relies on: the blocks of all files are distinct.
pub mod Positions
pub mod System
pub mod Child
pub mod Walking
pub mod Down
pub mod Level
pub mod Next
pub mod Data
pub mod Growing
pub mod Grown
pub mod Finish
pub mod Steps
pub mod Whole
pub mod Reread
pub mod Methods
mod Tests
