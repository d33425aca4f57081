-- ===== src/Scheduler.antt =====
-- phase2/scheduler.c: the next process to run, and what the machine does when there is none.
pub mod Dispatch
pub mod Idle
use patrick_landon_os.Base.{suc, true, false, not, Word, bit_or, is_pos, sdiv, ◌==◌, if◌then◌else◌}
use patrick_landon_os.Machine.Memory.{null}
use patrick_landon_os.Const.{quantum, inter_unmasked, ploc_time_on}
use patrick_landon_os.Machine.{
  Cmd, ldst, halt, panic, wait, pure, leave, crash, read, change, when, ◌>>=◌, ◌>>◌, load_pcb,
}
use patrick_landon_os.Pcb.Queue.{remove_proc_q}

-- `STCK(T)`: one more reading of the time of day, divided by the time scale.
unfoldable pub stck : Cmd Word
stck = do
  m ← read (λ m. m)
  if m.timescale == 0 then crash else do
    change (λ m. record m { readings = suc m.readings })
    pure (sdiv (m.tod m.readings) m.timescale)

-- `INTERON >> 2`
abbrev pub inter_on_current : Word
inter_on_current = 1

unfoldable pub scheduler : Cmd (Unit {0})
scheduler = do
  change (λ m. record m { waiting = false; io_proc_time = 0 })
  queue ← read (λ m. m.ready_que)
  (next_proc, tail) ← remove_proc_q queue
  change (λ m. record m { ready_que = tail })
  when (not (next_proc == null)) (do
    change (λ m. record m { current_proc = next_proc; timer = quantum })
    now ← stck
    change (λ m. record m { start_tod = now })
    c ← load_pcb next_proc
    leave (ldst c.p_s))
  procs ← read (λ m. m.proc_cnt)
  when (procs == 0) (leave halt)
  blocked ← read (λ m. m.sft_blk_cnt)
  when (blocked == 0) (leave panic)
  when (is_pos blocked) (do
    change (λ m. record m {
      waiting = true;
      cp0_status =
          bit_or (bit_or (bit_or m.cp0_status inter_on_current) inter_unmasked) ploc_time_on;
    })
    leave wait)
