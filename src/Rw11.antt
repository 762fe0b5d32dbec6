-- ===== src/Rw11.antt =====
-- tools/src/librw11: the back ends of the w11 controllers.
pub mod Tape
pub mod Disk
pub mod Rdma
