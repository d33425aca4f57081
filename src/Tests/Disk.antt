-- ===== src/Tests/Disk.antt =====
-- The interrupt of a disk on whose semaphore processes wait.
use patrick_landon_os.Const.{ack}
use patrick_landon_os.Layout.{Layout}
use patrick_landon_os.Interrupts.Lines.{find_dev_no, device_reg}
use patrick_landon_os.Interrupts.Disk.{Interrupts, handle_line-Signalled}
use patrick_landon_os.Interrupts.{no_device, handle_line, device_index}
use patrick_landon_os.Interrupts.Signal.{CanSignal, Signalled}
use patrick_landon_os.Tests.Kernel.{some_layout}
use patrick_landon_os.Asl.Apart.{IsTable-Apart, Apart-same}
use patrick_landon_os.Tests.Spare.{spare}
use patrick_landon_os.Base.{refl, [], ◌∷◌, arith}
use patrick_landon_os.Machine.Memory.{get, live, upd}
use patrick_landon_os.Machine.{Machine}
use patrick_landon_os.Tests.Machines.{cells}
use patrick_landon_os.Tests.Waiting.{
  both_wait, one_entry, both_wait-IsTable, both_wait-IsQueue_ready,
}

-- The machine `both_wait`, where the semaphore is that of the first disk, whose interrupt is pending.
abbrev pub disk_layout : Layout
disk_layout = record some_layout { sem_dev_array = 0x900 }

abbrev pub disk_done : Machine
disk_done = record both_wait {
  devices = cells ((0x10000050, record no_device { d_status = 1 }) ∷ []);
  interrupt_dev = 1 ∷ [];
}

disk_done-CanSignal :
    CanSignal disk_done 0x900 0x600 0x630 0x200
      (0x300 ∷ [])
      (0x400 ∷ [])
      one_entry
      (spare 0x3000 19)
unfolding live get
disk_done-CanSignal = record {
  sem = refl;
  waited = refl;
  table =
      IsTable-Apart both_wait disk_done refl refl refl (Apart-same both_wait.pcbs)
        both_wait-IsTable;
  low = omega arith;
  high = omega arith;
  line = refl;
  queue = both_wait-IsQueue_ready;
  idle = λ a i. ground arith;
  apart = λ a i. ground arith;
}

disk_done-Interrupts : Interrupts disk_done 3 0
unfolding live find_dev_no device_reg
disk_done-Interrupts = record {
  pending = refl;
  alive = refl;
  no_terminal = λ e. absurd (omega (arith, e));
  no_timer = λ e. absurd (omega (arith, e));
  no_clock = λ e. absurd (omega (arith, e));
}

handle_line-Signalled_example :
    Signalled
      (handle_line disk_layout 0 3)
      disk_done
      0x900
      0x600
      0x630
      0x200
      1
      (0x300 ∷ [])
      (0x400 ∷ [])
      one_entry
      (upd disk_done.devices 0x10000050 (λ d. record d { d_command = ack }))
unfolding device_index device_reg get
handle_line-Signalled_example =
    handle_line-Signalled disk_layout disk_done 3 0 0x600 0x630 0x200 (0x300 ∷ []) (0x400 ∷ [])
      one_entry (spare 0x3000 19) disk_done-Interrupts disk_done-CanSignal 0
