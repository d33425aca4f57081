-- ===== src/Interrupts/Quantum.antt =====
-- The end of a quantum: round robin.
use patrick_landon_os.Base.{
  ◌≡◌, ◌≢◌, ◌∙◌, ap, refl, sym, subst, true, false, List, [], ◌∷◌, ◌++◌, has, length, Word, ◌+w◌,
  ◌-w◌, arith, suc, ==_ne, if◌then◌else◌, ne_of_has, ◌==◌, ==_self,
}
use patrick_landon_os.Machine.{Machine, exit, ldst}
use patrick_landon_os.Machine.Memory.{
  live, Ptr, get, live-upd, Store, upd, null, live-ne, get-upd_twice, live-upd_twice,
}
use patrick_landon_os.Types.{State, zero_state, Pcb, blank_pcb}
use patrick_landon_os.Scheduler.Dispatch.{clock_now, stck-ok, Dispatched, scheduler-first}
use patrick_landon_os.Const.{inter_old, quantum, state_reg_num}
use patrick_landon_os.Interrupts.{end_quantum, Pcb, upd, null, copy_state, scheduler}
use patrick_landon_os.Pcb.Queue.Links.{IsQueue, IsQueue-same, core}
use patrick_landon_os.Pcb.Queue.Insert.{Inserted, insert_proc_q-append}
use patrick_landon_os.Scheduler.{scheduler}
use patrick_landon_os.CopyState.{copy_state}
use patrick_landon_os.Machine.Lemmas.{modify_pcb-ok, load_state-ok}
use patrick_landon_os.CopyState.Equal.{copy_state-eq}

abbrev pub old_state : Machine → State
old_state m = get zero_state m.states inter_old

-- The time that the interrupted process is charged: since it got the processor, less the time spent
-- on interrupts, the one at `time_start` included.
abbrev pub charge_of : Machine → Word → Word
charge_of m time_start =
    (clock_now m -w m.start_tod) -w (m.io_proc_time +w (clock_now m -w time_start))

-- The process `y` runs after a quantum is over, and `ys` are ready.
pub record Preempted (m : Machine) (time_start : Word) (y : Ptr) (ys : List Ptr) : Type 0 where
  pub last : Machine
  pub runs : end_quantum time_start m ≡ exit (ldst (get blank_pcb last.pcbs y).p_s) last
  pub current : last.current_proc ≡ y
  pub queue : IsQueue last.pcbs last.ready_que ys
  pub quantum_set : last.timer ≡ quantum
  pub saved : (get blank_pcb last.pcbs m.current_proc).p_s ≡ old_state m
  pub charged :
      (get blank_pcb last.pcbs m.current_proc).p_time
      ≡ ((get blank_pcb m.pcbs m.current_proc).p_time +w charge_of m time_start)
  pub others :
      (a : Ptr)
      → a ≢ m.current_proc
      → core (get blank_pcb last.pcbs a) ≡ core (get blank_pcb m.pcbs a)

module _ (m : Machine) (time_start : Word) (lc : live m.pcbs m.current_proc ≡ true)
    (old_live : live m.states inter_old ≡ true) (scale : m.timescale ≢ 0) where
  charged_with : Pcb → Pcb
  charged_with c = record c { p_time = c.p_time +w charge_of m time_start }

  saved_with : Pcb → Pcb
  saved_with c = record c { p_s = copy_state (old_state m) c.p_s }

  heap₁ : Store Pcb
  heap₁ = upd m.pcbs m.current_proc charged_with

  heap₂ : Store Pcb
  heap₂ = upd heap₁ m.current_proc saved_with

  stopped : Machine
  stopped = record m {
    readings = suc m.readings;
    io_proc_time = m.io_proc_time +w (clock_now m -w time_start);
    pcbs = heap₂;
  }

  lc₁ : live heap₁ m.current_proc ≡ true
  unfolding heap₁
  lc₁ = simp live-upd lc

  live-heap₂ : (a : Ptr) → live heap₂ a ≡ live m.pcbs a
  unfolding heap₁ heap₂
  live-heap₂ a = live-upd_twice m.pcbs m.current_proc charged_with saved_with a

  get-heap₂ :
      (a : Ptr)
      → get blank_pcb heap₂ a ≡ (
          if a == m.current_proc
          then saved_with (charged_with (get blank_pcb m.pcbs a))
          else get blank_pcb m.pcbs a)
  unfolding heap₁ heap₂
  get-heap₂ a = get-upd_twice blank_pcb m.pcbs m.current_proc charged_with saved_with a lc

  heap₂-current :
      get blank_pcb heap₂ m.current_proc
      ≡ saved_with (charged_with (get blank_pcb m.pcbs m.current_proc))
  heap₂-current = get-heap₂ m.current_proc ∙ rw (==_self m.current_proc) refl

  heap₂-other : (a : Ptr) → a ≢ m.current_proc → get blank_pcb heap₂ a ≡ get blank_pcb m.pcbs a
  heap₂-other a ne = get-heap₂ a ∙ rw (==_ne a m.current_proc ne) refl

  heap₂-saved :
      length (old_state m).s_reg ≡ state_reg_num
      → length (get blank_pcb m.pcbs m.current_proc).p_s.s_reg ≡ state_reg_num
      → (get blank_pcb heap₂ m.current_proc).p_s ≡ old_state m
  unfolding saved_with charged_with
  heap₂-saved ho hc =
      ap (λ (c : Pcb). c.p_s) heap₂-current
      ∙ copy_state-eq (old_state m) (get blank_pcb m.pcbs m.current_proc).p_s ho hc

  heap₂-charged :
      (get blank_pcb heap₂ m.current_proc).p_time
      ≡ ((get blank_pcb m.pcbs m.current_proc).p_time +w charge_of m time_start)
  unfolding saved_with charged_with
  heap₂-charged = ap (λ (c : Pcb). c.p_time) heap₂-current

  module _ (xs : List Ptr) (q : IsQueue m.pcbs m.ready_que xs)
      (new : has m.current_proc xs ≡ false) where
    q₂ : IsQueue heap₂ m.ready_que xs
    q₂ =
        IsQueue-same xs (λ a i. ground (arith, get-heap₂ a, ne_of_has a m.current_proc xs i new))
          live-heap₂ q

    ins : Inserted stopped m.ready_que m.current_proc xs
    unfolding stopped
    ins =
        insert_proc_q-append stopped m.ready_que m.current_proc xs q₂
          (live-heap₂ m.current_proc ∙ lc) new

    queued : Machine
    queued = record stopped {
      pcbs = ins.heap;
      ready_que = m.current_proc;
      current_proc = null;
      timer = quantum;
    }

    end_quantum-scheduler : end_quantum time_start m ≡ scheduler queued
    unfolding end_quantum stopped queued heap₂ heap₁ charged_with saved_with
    end_quantum-scheduler =
        rw
          (
            stck-ok m scale,
            ==_ne m.current_proc null (live-ne m.pcbs m.current_proc lc),
            modify_pcb-ok
                (record m {
                  readings = suc m.readings;
                  io_proc_time = m.io_proc_time +w (clock_now m -w time_start);
                })
                m.current_proc lc,
            load_state-ok (record stopped { pcbs = heap₁ }) inter_old old_live,
            modify_pcb-ok (record stopped { pcbs = heap₁ }) m.current_proc lc₁,
            ins.runs,
          )
          refl

-- When the quantum of a process is over, and `xs` are ready: the process goes to the end of the ready
-- queue with the state saved at the interrupt, charged for the time that it ran, and the block that
-- is then at the head, the same one if no other is ready, is given the processor for a whole quantum.
-- Of the other blocks nothing changes but links.
pub end_quantum-append :
    (m : Machine) (time_start : Word) (xs ys : List Ptr) (y : Ptr)
    → IsQueue m.pcbs m.ready_que xs
    → live m.pcbs m.current_proc ≡ true
    → has m.current_proc xs ≡ false
    → (xs ++ m.current_proc ∷ []) ≡ (y ∷ ys)
    → live m.states inter_old ≡ true
    → m.timescale ≢ 0
    → length (old_state m).s_reg ≡ state_reg_num
    → length (get blank_pcb m.pcbs m.current_proc).p_s.s_reg ≡ state_reg_num
    → Preempted m time_start y ys
unfolding queued stopped
end_quantum-append m time_start xs ys y q lc new line old_live scale ho hc = record {
  last = after;
  runs =
      end_quantum-scheduler m time_start lc old_live scale xs q new
      ∙ d.runs
      ∙ ap (λ s. exit (ldst s) after) (sym (ap (λ (c : Pcb). c.p_s) (d.frame.same_core y)));
  current = refl;
  queue = d.queue;
  quantum_set = refl;
  saved =
      ap (λ (c : Pcb). c.p_s) (same m.current_proc)
      ∙ heap₂-saved m time_start lc old_live scale ho hc;
  charged =
      ap (λ (c : Pcb). c.p_time) (same m.current_proc)
      ∙ heap₂-charged m time_start lc old_live scale;
  others = λ a ne. same a ∙ ap core (heap₂-other m time_start lc old_live scale a ne);
}
  where
    i : Inserted (stopped m time_start lc old_live scale) m.ready_que m.current_proc xs
    i = ins m time_start lc old_live scale xs q new

    n : Machine
    n = queued m time_start lc old_live scale xs q new

    d : Dispatched n y ys
    d = scheduler-first n y ys (subst (λ zs. IsQueue n.pcbs n.ready_que zs) line i.queue) scale

    same :
        (a : Ptr)
        → core (get blank_pcb d.heap a)
          ≡ core (get blank_pcb (heap₂ m time_start lc old_live scale) a)
    same a = d.frame.same_core a ∙ i.frame.same_core a

    after : Machine
    after = record n {
      waiting = false;
      io_proc_time = 0;
      pcbs = d.heap;
      ready_que = d.tail;
      current_proc = y;
      timer = quantum;
      start_tod = clock_now n;
      readings = suc n.readings;
    }
