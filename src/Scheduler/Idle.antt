-- ===== src/Scheduler/Idle.antt =====
-- The scheduler with no process that is ready.
use patrick_landon_os.Base.{◌≡◌, true, false, [], ◌==◌, is_neg, bit_or, arith, if◌then◌else◌}
use patrick_landon_os.Const.{inter_unmasked, ploc_time_on}
use patrick_landon_os.Machine.{Machine, ok, exit, halt, panic, wait}
use patrick_landon_os.Pcb.Queue.Links.{IsQueue}
use patrick_landon_os.Pcb.Queue.Remove.{remove_proc_q-nil}
use patrick_landon_os.Scheduler.{scheduler, inter_on_current}

abbrev pub waits : Machine → Machine
waits m = record m {
  waiting = true;
  cp0_status = bit_or (bit_or (bit_or m.cp0_status inter_on_current) inter_unmasked) ploc_time_on;
}

-- With an empty ready queue the scheduler halts if there is no process at all, panics if there are
-- processes and none waits for a device or the clock, and waits, with interrupts on and `waiting` set,
-- if some do. Where the count of those is negative it returns to its caller.
pub scheduler-nil :
    (m : Machine)
    → IsQueue m.pcbs m.ready_que []
    → let idle = record m { waiting = false; io_proc_time = 0 } in
      scheduler m ≡ (
        if m.proc_cnt == 0
        then exit halt idle
        else if m.sft_blk_cnt == 0
        then exit panic idle
        else if is_neg m.sft_blk_cnt
        then ok tt idle
        else exit wait (waits idle))
unfolding scheduler
scheduler-nil m q =
    rw (remove_proc_q-nil (record m { waiting = false; io_proc_time = 0 }) m.ready_que q)
      (ground arith)
