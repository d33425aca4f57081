-- ===== src/Scheduler/Dispatch.antt =====
-- The scheduler with a process that is ready.
use patrick_landon_os.Base.{
  suc, ◌≡◌, ◌≢◌, true, false, List, ◌∷◌, Word, ==_ne, sdiv, ap, ◌∙◌, arith,
}
use patrick_landon_os.Machine.Memory.{Ptr, null, Store, live, live-ne, get}
use patrick_landon_os.Types.{Pcb, blank_pcb}
use patrick_landon_os.Const.{quantum}
use patrick_landon_os.Machine.{Machine, ok, exit, ldst}
use patrick_landon_os.Machine.Lemmas.{load_pcb-ok}
use patrick_landon_os.Pcb.Queue.Links.{IsQueue, Relinked}
use patrick_landon_os.Pcb.Queue.Remove.{Removed, remove_proc_q-cons}
use patrick_landon_os.Scheduler.{stck, scheduler}

-- The next reading of the clock.
abbrev pub clock_now : Machine → Word
clock_now m = sdiv (m.tod m.readings) m.timescale

pub stck-ok :
    (m : Machine)
    → m.timescale ≢ 0
    → stck m ≡ ok (clock_now m) (record m { readings = suc m.readings })
unfolding stck
stck-ok m h = rw (==_ne m.timescale 0 h)

-- What the scheduler leaves behind when it gives the processor to `x`.
pub record Dispatched (m : Machine) (x : Ptr) (xs : List Ptr) : Type 0 where
  pub heap : Store Pcb
  pub tail : Ptr
  pub runs :
      scheduler m
      ≡ exit (ldst (get blank_pcb m.pcbs x).p_s) (record m {
        waiting = false;
        io_proc_time = 0;
        pcbs = heap;
        ready_que = tail;
        current_proc = x;
        timer = quantum;
        start_tod = clock_now m;
        readings = suc m.readings;
      })
  pub queue : IsQueue heap tail xs
  pub frame : Relinked (x ∷ xs) m.pcbs heap

-- With a ready queue that is not empty, the scheduler gives the processor to the block at its head:
-- control leaves for the state that the block had saved, the block is the current process and off the
-- queue, whose other blocks keep their order, a whole quantum is in the timer, the time of day is
-- noted, and no time counts as spent on interrupts.
pub scheduler-first :
    (m : Machine) (x : Ptr) (xs : List Ptr)
    → IsQueue m.pcbs m.ready_que (x ∷ xs)
    → m.timescale ≢ 0
    → Dispatched m x xs
unfolding scheduler
scheduler-first m x xs q scale = record {
  heap = r.heap;
  tail = r.tail;
  runs = rw (
    r.runs,
    ==_ne x null (live-ne m.pcbs x lx),
    stck-ok loaded scale,
    load_pcb-ok (record loaded { readings = suc m.readings; start_tod = clock_now m }) x lx',
    saved,
  );
  queue = r.queue;
  frame = r.frame;
}
  where
    start : Machine
    start = record m { waiting = false; io_proc_time = 0 }

    r : Removed start m.ready_que x xs
    r = remove_proc_q-cons start m.ready_que x xs q

    lx : live m.pcbs x ≡ true
    lx = q.lives x (ground arith)

    lx' : live r.heap x ≡ true
    lx' = r.frame.same_live x ∙ lx

    -- The queue operation changes links only.
    saved : (get blank_pcb r.heap x).p_s ≡ (get blank_pcb m.pcbs x).p_s
    saved = ap (λ (c : Pcb). c.p_s) (r.frame.same_core x)

    loaded : Machine
    loaded = record start { pcbs = r.heap; ready_que = r.tail; current_proc = x; timer = quantum }
