-- ===== src/Exceptions.antt =====
-- phase2/exceptions.c: system calls, and traps that are passed up or end the process.
pub mod Terminate
pub mod Calls
pub mod Handlers
pub mod Semaphores
pub mod Wake
pub mod Create
pub mod Wait
pub mod PassUp
