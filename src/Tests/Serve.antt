-- ===== src/Tests/Serve.antt =====
-- The interrupt of a disk while the scheduler waits.
use patrick_landon_os.Base.{refl, true, [], ◌∷◌, arith, ◌≢◌}
use patrick_landon_os.Const.{inter_old}
use patrick_landon_os.Types.{zero_state}
use patrick_landon_os.Machine.{Machine}
use patrick_landon_os.Machine.Memory.{null, get, live}
use patrick_landon_os.Pcb.Queue.Links.{IsQueue}
use patrick_landon_os.Asl.Apart.{IsTable-Apart, Apart-same}
use patrick_landon_os.Interrupts.{device_index}
use patrick_landon_os.Interrupts.Lines.{find_line_no, find_dev_no, device_reg}
use patrick_landon_os.Interrupts.Resume.{entered}
use patrick_landon_os.Interrupts.Disk.{Interrupts}
use patrick_landon_os.Interrupts.Signal.{CanSignal}
use patrick_landon_os.Interrupts.Serve.{Served, io_trap_handler-Served}
use patrick_landon_os.Tests.Disk.{disk_layout, disk_done}
use patrick_landon_os.Tests.Machines.{cells}
use patrick_landon_os.Tests.Spare.{spare}
use patrick_landon_os.Tests.Waiting.{both_wait, one_entry, both_wait-IsTable}

-- No process is ready, and the cause is the line of the disks.
abbrev all_idle : Machine
all_idle = record disk_done {
  ready_que = null;
  waiting = true;
  states = cells ((inter_old, record zero_state { s_cause = 0x800 }) ∷ []);
}

all_idle-IsQueue : IsQueue all_idle.pcbs null []
all_idle-IsQueue = record { tail = refl; links = tt; distinct = tt; lives = λ a i. cc }

all_idle-CanSignal :
    CanSignal (entered all_idle) 0x900 0x600 0x630 0x200 (0x300 ∷ []) [] one_entry (spare 0x3000 19)
unfolding live get
all_idle-CanSignal = record {
  sem = refl;
  waited = refl;
  table =
      IsTable-Apart both_wait (entered all_idle) refl refl refl (Apart-same both_wait.pcbs)
        both_wait-IsTable;
  low = omega arith;
  high = omega arith;
  line = refl;
  queue = all_idle-IsQueue;
  idle = λ a i. cc;
  apart = λ a i. cc;
}

all_idle-Interrupts : Interrupts (entered all_idle) 3 0
unfolding live find_dev_no device_reg
all_idle-Interrupts = record {
  pending = refl;
  alive = refl;
  no_terminal = λ e. absurd (omega (arith, e));
  no_timer = λ e. absurd (omega (arith, e));
  no_clock = λ e. absurd (omega (arith, e));
}

all_idle-scale : all_idle.timescale ≢ 0
all_idle-scale e = absurd (omega (arith, e))

io_trap_handler-Served_example :
    Served disk_layout all_idle 3 0 0x900 0x600 0x630 0x200 (0x300 ∷ []) one_entry
unfolding live get device_index find_line_no
io_trap_handler-Served_example =
    io_trap_handler-Served disk_layout all_idle 3 0 0x600 0x630 0x200 (0x300 ∷ []) one_entry
      (spare 0x3000 19) all_idle-scale refl refl refl all_idle-Interrupts all_idle-CanSignal
