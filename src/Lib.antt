-- ===== src/Lib.antt =====
-- A model of the nucleus of the Kaya operating system, for the uMPS2 (MIPS) machine, and its theorems.
--
-- The program. Phase 1 keeps process blocks (phase1/pcb.c: circular process queues, a free list and
-- the tree of parents and children) and the semaphores on which processes are blocked (phase1/asl.c).
-- Phase 2 is the kernel: `main` (phase2/initial.c) fills the new areas of the four exceptions, sets up
-- the tables and the first process and calls the scheduler (phase2/scheduler.c); system calls and the
-- other traps come to phase2/exceptions.c, interrupts to phase2/interrupts.c, and each of these
-- handlers ends with a process being resumed or with the scheduler. Phase 3 (phase3/) is a first
-- process, `test` (phase3/initProc.c), which sets up page tables and a pool of frames and creates the
-- user processes; each copies its program from its tape to the disk (`uProcInit`) and then runs on
-- virtual memory: its TLB traps come to `pager`, its system calls to `userSyscallHandler`, its program
-- traps to `userProgTrapHandler` (phase3/vmIOsupport.c).
--
-- The files. Base has the shared names and the lemmas on tests, lists, words and bits. Const is
-- h/const.h, Types is h/types.h, Layout the addresses that the linker chooses. Machine is the memory
-- and the registers that the kernel uses, and the commands on them. Pcb is phase1/pcb.c (Pcb.Queue,
-- Pcb.FreeList, Pcb.Tree) and Asl is phase1/asl.c. Scheduler is phase2/scheduler.c. CopyState and
-- Exceptions are phase2/exceptions.c: Exceptions.Terminate and Exceptions.Calls have the system calls,
-- Exceptions.Handlers the three handlers and `passUpOrDie`. Interrupts is phase2/interrupts.c, and
-- Initial is phase2/initial.c. P1test is phase1/p1test.c, the test program of phase 1, with the
-- terminal that it prints on. Support is phase 3: Support.Tables has its structures (h/types.h),
-- Support.Vm its variables and the commands on them, Support.Init `test` and `uProcInit`, Support.Disk
-- the other functions of phase3/initProc.c, Support.Terminate, Support.Pager and Support.Calls
-- phase3/vmIOsupport.c,
-- Support.Pool what it means that the pool and the page tables agree, and Support.Reach the sections
-- that hold the semaphore of the pool, in any order. Tests has small machines and the theorems at them.
--
-- State. A machine has one store for each kind of object in memory: process blocks, semaphore
-- descriptors, integers, processor states, device registers. A store gives the object at an address,
-- or nothing, and an access to nothing is the result `fault`. The static and the global variables are
-- fields of the machine under the names of the C code. A command takes a machine and gives one of four
-- results: `ok` with a value, `exit`, `fault`, `out_of_fuel`. `exit` stands for the operations LDST,
-- HALT, PANIC and WAIT of the machine's library, from which control does not come back to the caller.
-- SetTIMER and setSTATUS write a field; the readings of the time-of-day clock are a given stream, of
-- which each access takes the next. Integers are 32-bit patterns, added and subtracted modulo 2 ^ 32.
--
-- Phase 3 has a state of its own, since it runs on the calls of the kernel and not on its memory: its
-- variables, the registers that it reads, and a list of events with the system calls, the writes to
-- device registers and the clearings of the TLB, in their order. What the calls return is a given
-- stream, and so are the marks that the tape shows after each block. The call TERMINATEPROCESS ends the
-- process. The call TERMINATE is passed up to `userSyscallHandler`, whose switch leads to
-- `terminateUserProc` (Support.Terminate). A P of the pool's semaphore comes back with the variables as
-- the process then finds them, but blocks a process that holds the semaphore itself; a V keeps what the
-- pool and the page tables are, for the process that comes next. A run is that of one process, from the
-- start of a function to the point where it gives up the processor for good: the variables that it reads are
-- guarded by the semaphore of the pool, and are stable while that is taken. Pointers to page tables and
-- to their entries are names of what they point to; an index past the end of `uProcs`, of the pool or
-- of a page table is the result `fault`.
--
-- Loops run on fuel. The loop of `findASemd` has three rounds more than there may be semaphores in
-- use, which takes it past both dummies, and the loop of `outChild` one round for each process.
-- `outProcQ` ends in its first round. The loops over the static arrays run on the number of elements.
-- The loop that wakes the processes that wait for the clock has one round more than there are processes.
-- `terminateprocess`, with its two recursions, has a number of rounds above the number of processes, and
-- no result about it is claimed.
-- The loop of `tapeToDisk` is given a bound, and any bound above the length of the tape is enough. The
-- other loops of phase 3 run on the number of elements or of characters.
--
-- The test program runs on the functions of phase 1 alone, and while the terminal is busy it has a given
-- number of rounds; its theorems are about terminals that are free again in time.
--
-- The active semaphore list stands for a list of entries (Asl.Entries): a semaphore, its descriptor
-- and the processes that wait on it, in the order of the addresses. A process queue stands for the
-- list of its blocks (Pcb.Queue.Links), the children of a process for a list of blocks
-- (Pcb.Tree.Family). The descriptors of a machine are a table (Asl.Table): each is on the active list,
-- in order, or on the free list.
--
-- Not modelled: phase2/p2test.c and phase3/testers, which exercise the kernel; the machine's library;
-- the build files.
pub mod Base
pub mod Const
pub mod Types
pub mod Machine
pub mod Pcb
pub mod Asl
pub mod Scheduler
pub mod Layout
pub mod CopyState
pub mod Exceptions
pub mod Interrupts
pub mod Initial
pub mod Support
pub mod Tests
pub mod P1test
