-- ===== src/Tests.antt =====
-- The theorems at concrete inputs, and runs of the model on small machines.
mod Machines
mod Queues
mod Trees
mod Semaphores
mod Spare
mod Boot
mod Phase1
mod Create
mod Waiting
mod Disk
mod Serve
mod Clock
mod Words
mod Kernel
mod Vms
mod Paging
mod Calls
