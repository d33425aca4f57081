-- ===== src/Tests/Queues.antt =====
-- The theorems on process queues and on the initial free list.
use patrick_landon_os.Base.{◌≡◌, refl, [], ◌∷◌, arith, ℕ, ◌<◌, true}
use patrick_landon_os.Machine.Memory.{live, get}
use patrick_landon_os.Pcb.Queue.Links.{IsQueue, Lives}
use patrick_landon_os.Pcb.Queue.Insert.{Inserted, insert_proc_q-append}
use patrick_landon_os.Pcb.Queue.Remove.{Removed, remove_proc_q-cons}
use patrick_landon_os.Pcb.FreeList.Chain.{HasRegs}
use patrick_landon_os.Const.{max_proc}
use patrick_landon_os.Pcb.FreeList.{pcb_addr}
use patrick_landon_os.Pcb.FreeList.Init.{Initialised, init_pcbs-blocks}
use patrick_landon_os.Tests.Machines.{two_queued, array_machine}

two_queued-Lives : Lives two_queued.pcbs (0x200 ∷ 0x300 ∷ [])
unfolding live
two_queued-Lives a i = ground arith

pub two_queued-IsQueue : IsQueue two_queued.pcbs 0x300 (0x200 ∷ 0x300 ∷ [])
unfolding get
two_queued-IsQueue = record {
  tail = refl;
  links = (refl, refl, (refl, refl, tt));
  distinct = (refl, (refl, tt));
  lives = two_queued-Lives;
}

insert_proc_q-append_example : Inserted two_queued 0x300 0x400 (0x200 ∷ 0x300 ∷ [])
unfolding live
insert_proc_q-append_example =
    insert_proc_q-append two_queued 0x300 0x400 (0x200 ∷ 0x300 ∷ []) two_queued-IsQueue refl refl

remove_proc_q-cons_example : Removed two_queued 0x300 0x200 (0x300 ∷ [])
remove_proc_q-cons_example =
    remove_proc_q-cons two_queued 0x300 0x200 (0x300 ∷ []) two_queued-IsQueue

-- A machine whose static array of blocks lies at `0x1000`.
array_live : (j : ℕ) → j < max_proc → live (array_machine 0x1000).pcbs (pcb_addr 0x1000 j) ≡ true
unfolding live
array_live j h = ground arith

array_HasRegs : HasRegs (array_machine 0x1000).pcbs
unfolding get
array_HasRegs a = ground arith

init_pcbs-blocks_example : Initialised (array_machine 0x1000) 0x1000
init_pcbs-blocks_example = init_pcbs-blocks (array_machine 0x1000) 0x1000 array_HasRegs array_live
