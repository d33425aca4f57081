-- ===== src/Support.antt =====
-- phase3/: the first user process and the support of virtual memory.
pub mod Vm
pub mod Tables
pub mod Terminate
pub mod Disk
pub mod Pager
pub mod Calls
pub mod Init
pub mod Pool
pub mod Reach
