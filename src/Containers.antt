-- ===== src/Containers.antt =====
-- The containers of src/lib that the kernel and the servers share.
pub mod Map
pub mod Queue
