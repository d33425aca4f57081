-- ===== src/Interrupts/Serve.antt =====
-- The interrupt of a device that ends the wait of the whole machine.
use patrick_landon_os.Base.{
  ◌≡◌, ◌≢◌, ◌∙◌, ap, refl, true, false, List, [], ◌∷◌, some, suc, ◌+w◌, bit_and, sym, Bool, ◌==◌,
  eq_of_==, Bool-cases, inl, inr, arith,
}
use patrick_landon_os.Const.{inter_old, quantum, status_mask, ack}
use patrick_landon_os.Types.{blank_pcb, set_reg, s_v0}
use patrick_landon_os.Layout.{Layout, sem_dev_addr}
use patrick_landon_os.Machine.{Machine, exit, ldst, Cmd, when, continue}
use patrick_landon_os.Machine.Memory.{Ptr, live, get, upd}
use patrick_landon_os.Machine.Lemmas.{load_state-ok}
use patrick_landon_os.Pcb.Queue.Links.{IsQueue}
use patrick_landon_os.Asl.Entries.{Entry, waiting_on, sem_at}
use patrick_landon_os.Asl.Table.{IsTable}
use patrick_landon_os.Asl.Apart.{IsTable-Apart}
use patrick_landon_os.Scheduler.{scheduler}
use patrick_landon_os.Scheduler.Dispatch.{Dispatched, scheduler-first, clock_now, stck-ok}
use patrick_landon_os.Interrupts.Lines.{find_line_no, device_reg}
use patrick_landon_os.Interrupts.{io_trap_handler, on_line, resume, device_index, handle_line}
use patrick_landon_os.Interrupts.Signal.{CanSignal, Signalled}
use patrick_landon_os.Interrupts.Disk.{Interrupts, status_of, handle_line-Signalled}
use patrick_landon_os.Interrupts.Resume.{interrupted, entered}

when-true : (b : Bool) (c : Cmd (Unit {0})) (n : Machine) → b ≡ true → when b c n ≡ c n
when-true true c n e = refl
when-true false c n e = cc

-- What is left behind when `x`, which waited for the device, is given the processor.
pub record Served (l : Layout) (m : Machine) (line_no dev i lo hi x : Ptr) (zs : List Ptr)
    (es : List Entry) : Type 0 where
  pub last : Machine
  pub runs :
      io_trap_handler l m
      ≡ exit
          (ldst (
            set_reg s_v0
              (bit_and (status_of m line_no dev) status_mask)
              (get blank_pcb m.pcbs x).p_s))
          last
  pub current : last.current_proc ≡ x
  pub awake : last.waiting ≡ false
  pub whole : last.timer ≡ quantum
  pub ready : IsQueue last.pcbs last.ready_que []
  pub value : get 0 last.ints i ≡ (get 0 m.ints i +w 1)
  pub line : List Entry
  pub rest : List Ptr
  pub table : IsTable last lo hi line rest
  pub waiters : waiting_on i line ≡ zs
  pub others : (j : Ptr) → j ≢ i → waiting_on j line ≡ waiting_on j es

module _ (l : Layout) (m : Machine) (line_no dev lo hi x : Ptr) (zs : List Ptr) (es : List Entry)
    (ds : List Ptr) (scale : m.timescale ≢ 0) (saved : live m.states inter_old ≡ true)
    (waits : m.waiting ≡ true) (pending : find_line_no (interrupted m).s_cause ≡ some line_no)
    (t : Interrupts (entered m) line_no dev)
    (c : CanSignal
      (entered m)
      (sem_dev_addr l (device_index line_no dev false))
      lo
      hi
      x
      zs
      []
      es
      ds) where
  signalled :
      Signalled
        (handle_line l (clock_now m) line_no)
        (entered m)
        (sem_dev_addr l (device_index line_no dev false))
        lo
        hi
        x
        (status_of m line_no dev)
        zs
        []
        es
        (upd m.devices (device_reg line_no dev) (λ d. record d { d_command = ack }))
  signalled = handle_line-Signalled l (entered m) line_no dev lo hi x zs [] es ds t c (clock_now m)

  next : Dispatched signalled.last x []
  next = scheduler-first signalled.last x [] signalled.ready (λ e. scale (sym signalled.scale ∙ e))

  abbrev final : Machine
  final = record signalled.last {
    waiting = false;
    io_proc_time = 0;
    pcbs = next.heap;
    ready_que = next.tail;
    current_proc = x;
    timer = quantum;
    start_tod = clock_now signalled.last;
    readings = suc signalled.last.readings;
  }

  served-runs :
      io_trap_handler l m
      ≡ exit
          (ldst (
            set_reg s_v0
              (bit_and (status_of m line_no dev) status_mask)
              (get blank_pcb m.pcbs x).p_s))
          final
  unfolding io_trap_handler on_line
  served-runs =
      rw (stck-ok m scale, load_state-ok (entered m) inter_old saved, pending, signalled.runs)
        (ap (λ r. continue r (λ _. resume (clock_now m)))
            (when-true signalled.last.waiting scheduler signalled.last (signalled.still ∙ waits)
              ∙ next.runs)
          ∙ ap (λ s. exit (ldst s) final) signalled.answer)

  final-IsTable : IsTable final lo hi signalled.line signalled.rest
  final-IsTable =
      IsTable-Apart {ys = x ∷ []} signalled.last final refl refl refl
        (record {
          same_live = next.frame.same_live;
          outside = next.frame.outside;
          idle = λ a mem. elim (Bool-cases (a == x)) [
            | inl e ↦ ap (sem_at signalled.last.pcbs) (eq_of_== a x e) ∙ signalled.freed
            | inr ne ↦ absurd (ground (arith, mem, ne))
          ];
        })
        signalled.table

  -- The interrupt of a device that is not a terminal, while the scheduler waits with no process ready,
  -- where processes wait on the semaphore of the device, which stays at 0 or below: the first of them is
  -- given the processor for a whole quantum, from its saved state with the status of the device in `v0`,
  -- and the scheduler waits no more; no process is ready; the semaphore is one more; the rest still wait
  -- in their order, the waiting processes of every other semaphore are as before, and the descriptors are
  -- again all on the active list, in the order of their addresses, or on the free list.
  pub io_trap_handler-Served :
      Served l m line_no dev (sem_dev_addr l (device_index line_no dev false)) lo hi x zs es
  io_trap_handler-Served = record {
    last = final;
    runs = served-runs;
    current = refl;
    awake = refl;
    whole = refl;
    ready = next.queue;
    value = signalled.value;
    line = signalled.line;
    rest = signalled.rest;
    table = final-IsTable;
    waiters = signalled.waiters;
    others = signalled.others;
  }
