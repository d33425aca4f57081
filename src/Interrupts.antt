-- ===== src/Interrupts.antt =====
-- phase2/interrupts.c: which line and which device interrupts, and what the kernel does then.
pub mod Lines
pub mod Index
pub mod Resume
pub mod Signal
pub mod Quantum
pub mod Disk
pub mod Rouse
pub mod Serve
pub mod Clock
use patrick_landon_os.Base.{
  ℕ, zero, suc, ◌+◌, ◌*◌, ◌-◌, Bool, true, false, not, Word, ◌+w◌, ◌-w◌, bit_and, is_npos, get_or,
  ◌%◌, word_mod, Option, none, some, ◌==◌, if◌then◌else◌,
}
use patrick_landon_os.Machine.Memory.{Ptr, null, get, upd, live}
use patrick_landon_os.Types.{State, Pcb, Device, set_reg, s_v0}
use patrick_landon_os.Const.{
  inter_old, quantum, interval, ploc_int, iv_tim_int, term_int, dev_int_offset, dev_cnt, term_cnt,
  status_mask, ready, ack, max_proc,
}
use patrick_landon_os.Layout.{Layout, sem_dev_addr, clock_addr}
use patrick_landon_os.CopyState.{copy_state}
use patrick_landon_os.Machine.{
  Machine, Cmd, panic, pure, leave, starve, fault, ok, read, change, when, ◌>>=◌, ◌>>◌, modify_pcb,
  load_int, modify_int, load_state, modify_state,
}
use patrick_landon_os.Pcb.Queue.{insert_proc_q}
use patrick_landon_os.Asl.{remove_blocked, head_blocked}
use patrick_landon_os.Scheduler.{stck, scheduler}
use patrick_landon_os.Exceptions.Calls.{make_ready, load_and_go}
use patrick_landon_os.Interrupts.Lines.{find_line_no, find_dev_no, device_reg}

abbrev pub no_device : Device
no_device = record { d_status = 0; d_command = 0; d_data0 = 0; d_data1 = 0 }

unfoldable pub load_device : Ptr → Cmd Device
load_device p m = if live m.devices p then ok (get no_device m.devices p) m else fault

unfoldable pub modify_device : Ptr → (Device → Device) → Cmd (Unit {0})
modify_device p f m =
    if live m.devices p then ok tt (record m { devices = upd m.devices p f }) else fault

-- The quantum is over: `PLOCINT`.
unfoldable pub end_quantum : Word → Cmd (Unit {0})
end_quantum time_start = do
  time_end ← stck
  current ← read (λ m. m.current_proc)
  when (not (current == null)) (do
    change (λ m. record m { io_proc_time = m.io_proc_time +w (time_end -w time_start) })
    m ← read (λ m. m)
    modify_pcb current
        (λ c. record c { p_time = c.p_time +w ((time_end -w m.start_tod) -w m.io_proc_time) })
    old_int ← load_state inter_old
    modify_pcb current (λ c. record c { p_s = copy_state old_int c.p_s })
    make_ready current
    change (λ m. record m { current_proc = null }))
  change (λ m. record m { timer = quantum })
  scheduler

-- while(headBlocked(semAdd) != NULL) ...
unfoldable pub wake_loop : ℕ → Ptr → Cmd (Unit {0})
wake_loop zero sem_add = starve
wake_loop (suc k) sem_add = do
  head ← head_blocked sem_add
  if head == null then pure tt else do
    blocked_proc ← remove_blocked sem_add
    when (not (blocked_proc == null))
        (do change (λ m. record m { sft_blk_cnt = m.sft_blk_cnt -w 1 }); make_ready blocked_proc)
    wake_loop k sem_add

-- `LDIT(T)`
abbrev pub ldit : Word → Cmd (Unit {0})
ldit t = change (λ m. record m { interval_timer = (t * m.timescale) % word_mod })

-- The interval timer: `IVTIMINT`.
unfoldable pub tick_clock : Layout → Cmd (Unit {0})
unfolding wake_loop
tick_clock l = do
  wake_loop (max_proc + 1) (clock_addr l)
  modify_int (clock_addr l) (λ v. 0)
  ldit interval

-- The index in `semDevArray` of a device that interrupts.
unfoldable pub device_index : (line_no dev_no : ℕ) (reading : Bool) → ℕ
device_index line_no dev_no reading =
    if line_no == term_int
    then dev_cnt * (line_no - dev_int_offset) + term_cnt * dev_no + (if reading then 1 else 0)
    else dev_cnt * (line_no - dev_int_offset) + dev_no

-- Reads the status of the device and acknowledges the interrupt: the status, and whether a terminal
-- was read from.
unfoldable pub acknowledge : (line_no : ℕ) (dev_reg : Ptr) → Cmd (Word × Bool)
acknowledge line_no dev_reg = do
  d ← load_device dev_reg
  if line_no == term_int
      then if bit_and d.d_status status_mask == ready
        then (do modify_device dev_reg (λ d. record d { d_data1 = ack }); pure (d.d_data0, false))
        else (do modify_device dev_reg (λ d. record d { d_command = ack }); pure (d.d_status, true))
      else (do modify_device dev_reg (λ d. record d { d_command = ack }); pure (d.d_status, false))

-- `V` on the device's semaphore; the status goes to the process that waits, or else to the one that
-- was interrupted.
unfoldable pub signal_device : (sem_add : Ptr) (status : Word) → Cmd (Unit {0})
signal_device sem_add status = do
  modify_int sem_add (λ v. v +w 1)
  value ← load_int sem_add
  if is_npos value
      then (do
        blocked_proc ← remove_blocked sem_add
        when (not (blocked_proc == null)) (do
          change (λ m. record m { sft_blk_cnt = m.sft_blk_cnt -w 1 })
          modify_pcb blocked_proc
              (λ c. record c { p_s = set_reg s_v0 (bit_and status status_mask) c.p_s })
          make_ready blocked_proc))
      else modify_state inter_old (set_reg s_v0 (bit_and status status_mask))

-- The device that `findDevNo` finds, if any.
unfoldable pub answer_device : Layout → ℕ → Option ℕ → Cmd (Unit {0})
unfolding acknowledge device_index signal_device
answer_device l line_no none = leave panic
answer_device l line_no (some dev_no) = do
  (status, reading) ← acknowledge line_no (device_reg line_no dev_no)
  signal_device (sem_dev_addr l (device_index line_no dev_no reading)) status

-- A device line. `findDevNo` gives no number where no device is pending.
unfoldable pub device_interrupt : Layout → ℕ → Cmd (Unit {0})
unfolding answer_device
device_interrupt l line_no = do
  pending ← read (λ m. get_or m.interrupt_dev (line_no - dev_int_offset) 0)
  answer_device l line_no (find_dev_no pending)

-- The switch of `ioTrapHandler`.
unfoldable pub handle_line : Layout → Word → ℕ → Cmd (Unit {0})
unfolding end_quantum tick_clock device_interrupt
handle_line l time_start line_no =
    if line_no == ploc_int
    then end_quantum time_start
    else if line_no == iv_tim_int
    then tick_clock l
    else device_interrupt l line_no

unfoldable pub on_line : Layout → Word → Option ℕ → Cmd (Unit {0})
unfolding handle_line
on_line l time_start none = leave panic
on_line l time_start (some line_no) = handle_line l time_start line_no

-- The time spent in the handler, and the return to the interrupted process.
unfoldable pub resume : Word → Cmd (Unit {0})
resume time_start = do
  time_end ← stck
  change (λ m. record m { io_proc_time = m.io_proc_time +w (time_start -w time_end) })
  load_and_go inter_old

unfoldable pub io_trap_handler : Layout → Cmd (Unit {0})
unfolding on_line resume
io_trap_handler l = do
  time_start ← stck
  old_int ← load_state inter_old
  on_line l time_start (find_line_no old_int.s_cause)
  waits ← read (λ m. m.waiting)
  when waits scheduler
  resume time_start
