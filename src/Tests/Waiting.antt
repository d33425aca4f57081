-- ===== src/Tests/Waiting.antt =====
-- Processes that wait on one semaphore, are woken, or are taken out.
use patrick_landon_os.Tests.Kernel.{some_layout}
use patrick_landon_os.Asl.Apart.{IsTable-Apart, Apart-same}
use patrick_landon_os.Exceptions.Calls.{P, waitio, wait_index}
use patrick_landon_os.Exceptions.Wait.Park.{CanPark}
use patrick_landon_os.Tests.Spare.{
  with_spare, spare, Frees-spare, Distinct-spare, not-mem-spare, key_at-spare,
}
use patrick_landon_os.Asl.Retire.{Withdrawn}
use patrick_landon_os.Base.{◌≡◌, refl, [], ◌∷◌, arith, List}
use patrick_landon_os.Machine.Memory.{get, live, Store}
use patrick_landon_os.Asl.{out_blocked}
use patrick_landon_os.Machine.{Machine, fault}
use patrick_landon_os.Asl.Entries.{Entry, IsAsl}
use patrick_landon_os.Tests.Machines.{cells, two_queued}
use patrick_landon_os.Pcb.Queue.Links.{IsQueue, Lives}
use patrick_landon_os.Types.{blank_pcb, blank_semd, set_reg, s_a1, zero_state, Semd}
use patrick_landon_os.Const.{max_int, disk_int}
use patrick_landon_os.Exceptions.Wake.{Woken, V-Woken, CanWake}
use patrick_landon_os.Exceptions.Wait.{Waited, P-Waited, Falls, waitio-Waited}
use patrick_landon_os.Asl.Table.{IsTable}
use patrick_landon_os.Asl.Out.{out_blocked-stuck, out_blocked-last}

abbrev both_active : Store Semd
both_active = cells (
    (0x600, record blank_semd { s_next = 0x610; s_sem_add = 0 })
    ∷ (0x610, record blank_semd { s_next = 0x630; s_sem_add = 0x900; s_proc_q = 0x300 })
    ∷ (0x630, record blank_semd { s_sem_add = max_int })
    ∷ [])

-- The processes at `0x200` and `0x300` wait on the one semaphore, at `0x900`; the one at `0x400` is
-- ready, the one at `0x480` runs, and the state at `0x500` is that of a call with this semaphore.
abbrev pub both_wait : Machine
both_wait = record two_queued {
  pcbs = cells (
      (0x200, record blank_pcb { p_next = 0x300; p_prev = 0x300; p_sem_add = 0x900 })
      ∷ (0x300, record blank_pcb { p_next = 0x200; p_prev = 0x200; p_sem_add = 0x900 })
      ∷ (0x400, record blank_pcb { p_next = 0x400; p_prev = 0x400 })
      ∷ (0x480, blank_pcb)
      ∷ []);
  semds = with_spare 0x3130 both_active;
  semd_active_h = 0x600;
  semd_free_h = 0x3000;
  ready_que = 0x400;
  current_proc = 0x480;
  ints = cells ((0x900, 4294967294) ∷ []);
  states = cells ((0x500, set_reg s_a1 0x900 zero_state) ∷ []);
}

abbrev pub one_entry : List Entry
one_entry = (record { key = 0x900; desc = 0x610; procs = 0x200 ∷ 0x300 ∷ [] }) ∷ []

both_wait-Lives : Lives both_wait.pcbs (0x200 ∷ 0x300 ∷ [])
unfolding live
both_wait-Lives a i = ground arith

both_wait-IsQueue : IsQueue both_wait.pcbs 0x300 (0x200 ∷ 0x300 ∷ [])
unfolding get
both_wait-IsQueue = record {
  tail = refl;
  links = (refl, refl, (refl, refl, tt));
  distinct = (refl, (refl, tt));
  lives = both_wait-Lives;
}

both_wait-IsAsl : IsAsl both_wait 0x600 0x630 one_entry
unfolding live get
both_wait-IsAsl = record {
  starts = refl;
  lo_live = refl;
  hi_live = refl;
  hi_key = refl;
  descs = (refl, refl, refl, refl);
  rises = omega arith;
  waits = ((both_wait-IsQueue, λ e. cc, λ a i. ground arith), tt);
  few = omega arith;
}

pub both_wait-IsTable : IsTable both_wait 0x600 0x630 one_entry (spare 0x3000 19)
unfolding live get
both_wait-IsTable = record {
  asl = both_wait-IsAsl;
  free = record {
    chain = Frees-spare 0x3130 (omega arith) both_active 0x3000 19 (omega arith) refl;
    distinct = Distinct-spare 0x3000 19;
  };
  lo_key = refl;
  above = (omega arith, omega arith);
  apart = not-mem-spare 0x630 0x3000 19 (omega arith);
  idle = λ a mem. key_at-spare 0x3130 (omega arith) both_active a 0x3000 19 (omega arith) refl mem;
  total = refl;
}

out_blocked-last_example :
    Withdrawn (out_blocked 0x300) both_wait 0x600 0x630 0x900 0x300 (0x200 ∷ []) one_entry
out_blocked-last_example =
    out_blocked-last both_wait 0x600 0x630 0x900 0x300 one_entry (spare 0x3000 19) both_wait-IsTable
      (omega arith) (omega arith) (0x200 ∷ []) refl

out_blocked-stuck_example : out_blocked 0x200 both_wait ≡ fault
out_blocked-stuck_example =
    out_blocked-stuck both_wait 0x600 0x630 0x900 0x200 one_entry (spare 0x3000 19)
      both_wait-IsTable (omega arith) (omega arith) [] 0x300 [] refl

both_wait-Lives_ready : Lives both_wait.pcbs (0x400 ∷ [])
unfolding live
both_wait-Lives_ready a i = ground arith

pub both_wait-IsQueue_ready : IsQueue both_wait.pcbs 0x400 (0x400 ∷ [])
unfolding get
both_wait-IsQueue_ready = record {
  tail = refl;
  links = (refl, refl, tt);
  distinct = (refl, tt);
  lives = both_wait-Lives_ready;
}

both_wait-CanWake :
    CanWake both_wait 0x500 0x600 0x630 0x200 (0x300 ∷ []) (0x400 ∷ []) one_entry (spare 0x3000 19)
unfolding live get
both_wait-CanWake = record {
  saved = refl;
  sem = refl;
  table = both_wait-IsTable;
  low = omega arith;
  high = omega arith;
  line = refl;
  waited = refl;
  queue = both_wait-IsQueue_ready;
  idle = λ a i. ground arith;
  apart = λ a i. ground arith;
}

V-Woken_example : Woken both_wait 0x500 0x600 0x630 0x200 (0x300 ∷ []) (0x400 ∷ []) one_entry
V-Woken_example =
    V-Woken both_wait 0x500 0x600 0x630 0x200 (0x300 ∷ []) (0x400 ∷ []) one_entry (spare 0x3000 19)
      both_wait-CanWake

both_wait-CanPark : CanPark both_wait 0x500 0x900 0x600 0x630 0x400 [] one_entry (spare 0x3000 19)
unfolding live get
both_wait-CanPark = record {
  saved = refl;
  table = both_wait-IsTable;
  low = omega arith;
  high = omega arith;
  room = λ e. absurd cc;
  lc = refl;
  free = refl;
  queue = both_wait-IsQueue_ready;
  idle = λ a i. ground arith;
  apart = λ a i. ground arith;
  scale = λ e. absurd (omega (arith, e));
  regs = refl;
  kept_regs = refl;
}

both_wait-Falls : Falls both_wait 0x900
unfolding live get
both_wait-Falls = record { sem = refl; below = refl }

P-Waited_example :
    Waited (P 0x500) both_wait 0x500 0x900 0x600 0x630 0x400 [] one_entry both_wait.sft_blk_cnt
unfolding get
P-Waited_example =
    P-Waited both_wait 0x500 0x600 0x630 0x400 [] one_entry (spare 0x3000 19) both_wait-CanPark
      both_wait-Falls

-- The same machine where the state at `0x500` is that of a call that waits for the first disk.
abbrev asks_disk : Machine
asks_disk = record both_wait {
  ints = cells ((0x800, 0) ∷ []);
  states = cells ((0x500, set_reg s_a1 disk_int zero_state) ∷ []);
}

asks_disk-CanPark : CanPark asks_disk 0x500 0x800 0x600 0x630 0x400 [] one_entry (spare 0x3000 19)
unfolding live get
asks_disk-CanPark = record {
  saved = refl;
  table =
      IsTable-Apart both_wait asks_disk refl refl refl (Apart-same both_wait.pcbs)
        both_wait-IsTable;
  low = omega arith;
  high = omega arith;
  room = λ e q. cc;
  lc = refl;
  free = refl;
  queue = both_wait-IsQueue_ready;
  idle = λ a i. ground arith;
  apart = λ a i. ground arith;
  scale = λ e. absurd (omega (arith, e));
  regs = refl;
  kept_regs = refl;
}

asks_disk-Falls : Falls asks_disk 0x800
unfolding live get
asks_disk-Falls = record { sem = refl; below = refl }

waitio-Waited_example :
    Waited (waitio some_layout 0x500) asks_disk 0x500 0x800 0x600 0x630 0x400 [] one_entry 1
unfolding get wait_index
waitio-Waited_example =
    waitio-Waited some_layout asks_disk 0x500 0x600 0x630 0x400 [] one_entry (spare 0x3000 19)
      asks_disk-CanPark asks_disk-Falls refl
