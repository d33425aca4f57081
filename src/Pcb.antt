-- ===== src/Pcb.antt =====
-- phase1/pcb.c: process queues, the free list of process blocks, and the process tree.
pub mod Queue
pub mod FreeList
pub mod Tree
