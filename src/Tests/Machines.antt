-- ===== src/Tests/Machines.antt =====
-- Small machines.
use patrick_landon_os.Base.{
  List, [], ◌∷◌, false, Option, none, some, ◌==◌, if◌then◌else◌, leb, ◌&&◌, ltb, ◌+◌, ◌*◌,
}
use patrick_landon_os.Machine.Memory.{Ptr, null}
use patrick_landon_os.Types.{blank_pcb, blank_semd}
use patrick_landon_os.Const.{max_proc, sizeof_pcb, sizeof_semd}
use patrick_landon_os.Machine.{Machine}

-- A machine with nothing in memory and no process.
abbrev pub empty_machine : Machine
empty_machine = record {
  pcb_free_h = null;
  semd_active_h = null;
  semd_free_h = null;
  proc_cnt = 0;
  sft_blk_cnt = 0;
  ready_que = null;
  current_proc = null;
  start_tod = 0;
  io_proc_time = 0;
  waiting = false;
  pcbs = λ a. none;
  semds = λ a. none;
  ints = λ a. none;
  states = λ a. none;
  devices = λ a. none;
  interrupt_dev = [];
  rambase = 0;
  ramsize = 0;
  tod = λ i. 0;
  readings = 0;
  timescale = 1;
  timer = 0;
  interval_timer = 0;
  cp0_status = 0;
}

abbrev pub cells {ℓ} : {A : Type ℓ} → List (Ptr × A) → Ptr → Option A
cells [] a = none
cells ((p, c) ∷ rest) a = if a == p then some c else cells rest a

-- The block at `0x200` before the one at `0x300` in a queue, and one at `0x400` in no queue.
abbrev pub two_queued : Machine
two_queued = record empty_machine {
  pcbs = cells (
      (0x200, record blank_pcb { p_next = 0x300; p_prev = 0x300 })
      ∷ (0x300, record blank_pcb { p_next = 0x200; p_prev = 0x200 })
      ∷ (0x400, blank_pcb)
      ∷ []);
  ready_que = 0x300;
}

-- Process blocks at every address of an array that begins at `base`.
abbrev pub array_machine : Ptr → Machine
array_machine base = record empty_machine {
  pcbs = λ a. if leb base a && ltb a (base + sizeof_pcb * max_proc) then some blank_pcb else none;
}

-- Semaphore descriptors at every address of an array that begins at `base`.
abbrev pub semd_array_machine : Ptr → Machine
semd_array_machine base = record empty_machine {
  semds = λ a.
      if leb base a && ltb a (base + sizeof_semd * (max_proc + 2)) then some blank_semd else none;
}
