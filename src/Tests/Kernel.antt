-- ===== src/Tests/Kernel.antt =====
-- The theorems on the scheduler, the exceptions and the interrupts, on small machines.
use patrick_landon_os.Base.{◌+w◌, ◌≡◌, refl, [], ◌∷◌, arith, ◌≢◌, ◌-w◌, ℕ, ◌+◌}
use patrick_landon_os.Tests.Queues.{two_queued-IsQueue}
use patrick_landon_os.Interrupts.Resume.{left, interrupted, entered, io_trap_handler-resumes}
use patrick_landon_os.Interrupts.{on_line, tick_clock, wake_loop, handle_line, io_trap_handler}
use patrick_landon_os.Machine.Memory.{live, upd, get}
use patrick_landon_os.Layout.{Layout}
use patrick_landon_os.Machine.{Machine, exit, modify_int, ldst, load_semd, ok}
use patrick_landon_os.Scheduler.Dispatch.{Dispatched, scheduler-first, clock_now}
use patrick_landon_os.Tests.Machines.{two_queued, empty_machine, cells}
use patrick_landon_os.Const.{interval, syscall_old, inter_old, max_int, kernel_off, prog_trap_old}
use patrick_landon_os.Asl.Entries.{IsAsl}
use patrick_landon_os.Types.{set_reg, zero_state, s_a1, blank_semd, blank_pcb, s_a0}
use patrick_landon_os.Interrupts.Lines.{find_line_no}
use patrick_landon_os.Exceptions.Calls.{P, V}
use patrick_landon_os.Interrupts.{io_trap_handler}
use patrick_landon_os.Asl.{head_blocked, find_a_semd, find_loop}
use patrick_landon_os.Exceptions.Semaphores.{caller, resumes, V-P}
use patrick_landon_os.Interrupts.Quantum.{Preempted, end_quantum-append}

two_queued-scale : two_queued.timescale ≢ 0
two_queued-scale e = absurd (omega arith)

scheduler-first_example : Dispatched two_queued 0x200 (0x300 ∷ [])
scheduler-first_example =
    scheduler-first two_queued 0x200 (0x300 ∷ []) two_queued-IsQueue two_queued-scale

-- A caller that passes the semaphore at `0x900`, which is at 1.
abbrev pub one_free : Machine
one_free = record empty_machine {
  states = cells (
      (inter_old, record zero_state { s_cause = 0x400 })
      ∷ (syscall_old, set_reg s_a1 0x900 zero_state)
      ∷ []);
  ints = cells ((0x900, 1) ∷ (0x8C0, 5) ∷ []);
  semds = cells (
      (0x600, record blank_semd { s_next = 0x620 })
      ∷ (0x620, record blank_semd { s_sem_add = max_int })
      ∷ []);
  semd_active_h = 0x600;
}

V-P_example :
    let n = resumes one_free syscall_old 0x900 (λ v. v -w 1) in
    let back = resumes n syscall_old 0x900 (λ v. v +w 1) in
    (P syscall_old one_free ≡ exit (ldst (caller one_free syscall_old)) n)
    × (V syscall_old n ≡ exit (ldst (caller one_free syscall_old)) back)
    × ((a : ℕ) → get 0 back.ints a ≡ get 0 one_free.ints a)
unfolding live get
V-P_example = V-P one_free syscall_old refl refl (omega arith) (omega arith)

abbrev pub some_layout : Layout
some_layout = record {
  pcb_arr = 0x1000;
  semd_arr = 0x2000;
  sem_dev_array = 0x800;
  sys_call_handler = 0x100;
  prog_trap_handler = 0x110;
  tlb_trap_handler = 0x120;
  io_trap_handler = 0x130;
  test = 0x140;
}

one_free-IsAsl : IsAsl one_free 0x600 0x620 []
unfolding live get
one_free-IsAsl = record {
  starts = refl;
  lo_live = refl;
  hi_live = refl;
  hi_key = refl;
  descs = refl;
  rises = tt;
  waits = tt;
  few = omega arith;
}

-- The pseudo-clock ticks, and no process waits for it.
abbrev pub ticked : Machine
ticked = record one_free {
  readings = 1;
  ints = upd one_free.ints 0x8C0 (λ v. 0);
  interval_timer = interval;
}

ticked-runs :
    on_line some_layout
      (clock_now one_free)
      (find_line_no (interrupted one_free).s_cause)
      (entered one_free)
    ≡ ok tt ticked
unfolding on_line tick_clock wake_loop find_line_no live get upd modify_int head_blocked find_a_semd
    find_loop load_semd handle_line
ticked-runs = refl

one_free-scale : one_free.timescale ≢ 0
one_free-scale e = absurd (omega arith)

io_trap_handler-resumes_example :
    io_trap_handler some_layout one_free
    ≡ exit
        (ldst (interrupted ticked))
        (left (ticked.io_proc_time -w (clock_now ticked -w clock_now one_free)) ticked)
unfolding live
io_trap_handler-resumes_example =
    io_trap_handler-resumes some_layout one_free ticked one_free-scale refl ticked-runs refl
      one_free-scale refl

-- The process at `0x200` has areas for program traps, and has made a system call in user mode.
abbrev pub user_call : Machine
user_call = record empty_machine {
  pcbs = cells ((0x200, record blank_pcb { p_old_pgm = 0x700; p_new_pgm = 0x780 }) ∷ []);
  current_proc = 0x200;
  states = cells (
      (syscall_old, set_reg s_a0 3 (record zero_state { s_status = kernel_off }))
      ∷ (prog_trap_old, zero_state)
      ∷ (0x700, zero_state)
      ∷ (0x780, record zero_state { s_pc = 0x5000 })
      ∷ []);
}

-- The process at `0x400` runs, and two others are ready.
abbrev pub one_running : Machine
one_running = record two_queued {
  current_proc = 0x400;
  states = cells ((inter_old, record zero_state { s_pc = 0x4400 }) ∷ []);
  start_tod = 5;
  tod = λ i. 40 + i;
}

one_running-scale : one_running.timescale ≢ 0
one_running-scale e = absurd (omega arith)

end_quantum-append_example : Preempted one_running 30 0x200 (0x300 ∷ 0x400 ∷ [])
unfolding live get
end_quantum-append_example =
    end_quantum-append one_running 30 (0x200 ∷ 0x300 ∷ []) (0x300 ∷ 0x400 ∷ []) 0x200
      two_queued-IsQueue refl refl refl refl one_running-scale refl refl
