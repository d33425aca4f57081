-- ===== src/Interrupts/Resume.antt =====
-- The end of `ioTrapHandler`, where the interrupted process goes on.
use patrick_landon_os.Base.{
  refl, suc, ◌≡◌, ◌≢◌, true, false, Word, ◌+w◌, ◌-w◌, arith, ap, Bool, ◌∙◌,
}
use patrick_landon_os.Const.{inter_old}
use patrick_landon_os.Machine.Memory.{live, get}
use patrick_landon_os.Machine.{Machine, ok, exit, ldst, Cmd, continue, when}
use patrick_landon_os.Machine.Lemmas.{load_state-ok}
use patrick_landon_os.Types.{State, zero_state}
use patrick_landon_os.Layout.{Layout}
use patrick_landon_os.Scheduler.Dispatch.{clock_now, stck-ok}
use patrick_landon_os.Interrupts.Lines.{find_line_no}
use patrick_landon_os.Interrupts.{on_line, io_trap_handler, resume, Cmd, scheduler, when}
use patrick_landon_os.Scheduler.{scheduler}

add-sub_swap : (a s e : Word) → (a +w (s -w e)) ≡ (a -w (e -w s))
add-sub_swap a s e = omega arith

abbrev pub interrupted : Machine → State
interrupted m = get zero_state m.states inter_old

abbrev pub entered : Machine → Machine
entered m = record m { readings = suc m.readings }

-- The machine when control goes back.
abbrev pub left : Word → Machine → Machine
left io m = record m { io_proc_time = io; readings = suc m.readings }

resume_lem :
    (m n : Machine)
    → n.timescale ≢ 0
    → live n.states inter_old ≡ true
    → resume (clock_now m) n
      ≡ exit (ldst (interrupted n)) (left (n.io_proc_time -w (clock_now n -w clock_now m)) n)
unfolding resume
resume_lem m n scale saved = rw (
  stck-ok n scale,
  load_state-ok (left (n.io_proc_time +w (clock_now m -w clock_now n)) n) inter_old saved,
  add-sub_swap n.io_proc_time (clock_now m) (clock_now n),
)

pub when-false : (b : Bool) (c : Cmd (Unit {0})) (n : Machine) → b ≡ false → when b c n ≡ ok tt n
when-false true c n e = cc
when-false false c n e = refl

-- When the interrupt of a line is handled, and the scheduler was not waiting, the interrupted process
-- goes on from its saved state, and the time from the first reading of the clock to the last is taken
-- from the time that counts as spent on interrupts, instead of added to it.
pub io_trap_handler-resumes :
    (l : Layout) (m n : Machine)
    → m.timescale ≢ 0
    → live m.states inter_old ≡ true
    → on_line l (clock_now m) (find_line_no (interrupted m).s_cause) (entered m) ≡ ok tt n
    → n.waiting ≡ false
    → n.timescale ≢ 0
    → live n.states inter_old ≡ true
    → io_trap_handler l m
      ≡ exit (ldst (interrupted n)) (left (n.io_proc_time -w (clock_now n -w clock_now m)) n)
unfolding io_trap_handler
io_trap_handler-resumes l m n scale saved handled still scale' saved' =
    rw (stck-ok m scale, load_state-ok (entered m) inter_old saved, handled)
      (ap (λ r. continue r (λ _. resume (clock_now m))) (when-false n.waiting scheduler n still)
        ∙ resume_lem m n scale' saved')
