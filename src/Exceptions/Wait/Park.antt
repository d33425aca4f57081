-- ===== src/Exceptions/Wait/Park.antt =====
-- A process gives up the processor to wait on a semaphore.
use patrick_landon_os.Base.{
  ◌≡◌, ◌≢◌, ◌∙◌, ap, refl, suc, true, false, List, [], ◌∷◌, ◌++◌, has, arith, ◌<◌, length, eq_of_==,
  Word,
}
use patrick_landon_os.Const.{max_int, state_reg_num, quantum, min_int}
use patrick_landon_os.Types.{blank_pcb, Pcb}
use patrick_landon_os.Machine.Memory.{Ptr, null, live, get, live-upd}
use patrick_landon_os.Machine.{Machine, exit, ldst, ok}
use patrick_landon_os.Machine.Lemmas.{load_state-ok, modify_pcb-ok}
use patrick_landon_os.CopyState.Equal.{copy_state-eq}
use patrick_landon_os.Pcb.Queue.Links.{IsQueue, IsQueue-same}
use patrick_landon_os.Scheduler.Dispatch.{clock_now, stck-ok, Dispatched, scheduler-first}
use patrick_landon_os.Asl.Entries.{Entry, waiting_on, sem_at}
use patrick_landon_os.Asl.Insert.{HasRoom, insert_blocked_lem}
use patrick_landon_os.Asl.Enter.{Enlisted}
use patrick_landon_os.Asl.Apart.{IsTable-Apart}
use patrick_landon_os.Exceptions.Semaphores.{caller}
use patrick_landon_os.Exceptions.Calls.{block_on, charge}
use patrick_landon_os.Exceptions.Wait.Stop.{
  charged_heap, stopped, live-kept, kept-current, kept-other,
}
use patrick_landon_os.Asl.Table.{IsTable}
use patrick_landon_os.Scheduler.{scheduler}

-- The process that runs is blocked on nothing, there are ready processes, none of which is blocked, and
-- the semaphore `i` has a descriptor or one is free.
pub record CanPark (m : Machine) (state i lo hi y : Ptr) (ys : List Ptr) (es : List Entry)
    (ds : List Ptr) : Type 0 where
  pub saved : live m.states state ≡ true
  pub table : IsTable m lo hi es ds
  pub low : min_int < i
  pub high : i < max_int
  pub room : HasRoom i es ds
  pub lc : live m.pcbs m.current_proc ≡ true
  pub free : sem_at m.pcbs m.current_proc ≡ null
  pub queue : IsQueue m.pcbs m.ready_que (y ∷ ys)
  pub idle : (a : Ptr) → has a (y ∷ ys) ≡ true → sem_at m.pcbs a ≡ null
  pub apart : (a : Ptr) → has a (y ∷ ys) ≡ true → has a (m.current_proc ∷ waiting_on i es) ≡ false
  pub scale : m.timescale ≢ 0
  pub regs : length (caller m state).s_reg ≡ state_reg_num
  pub kept_regs : length (get blank_pcb m.pcbs m.current_proc).p_s.s_reg ≡ state_reg_num

-- What is left when `y` runs, `n` of the processes counting as blocked on a device.
pub record Parked (m last : Machine) (state i lo hi y : Ptr) (ys : List Ptr) (es : List Entry)
    (n : Word) : Type 0 where
  pub ints : last.ints ≡ m.ints
  pub count : last.sft_blk_cnt ≡ n
  pub line : List Entry
  pub rest : List Ptr
  pub table : IsTable last lo hi line rest
  pub waiters : waiting_on i line ≡ waiting_on i es ++ m.current_proc ∷ []
  pub others : (j : Ptr) → j ≢ i → waiting_on j line ≡ waiting_on j es
  pub current : last.current_proc ≡ y
  pub ready : IsQueue last.pcbs last.ready_que ys
  pub saved : (get blank_pcb last.pcbs m.current_proc).p_s ≡ caller m state

module _ (m : Machine) (state i lo hi y : Ptr) (ys : List Ptr) (es : List Entry) (ds : List Ptr)
    (w : CanPark m state i lo hi y ys es ds) where
  abbrev cur : Ptr
  cur = m.current_proc

  abbrev before : Machine
  before = stopped m state

  only : (a : Ptr) → has a (cur ∷ []) ≡ false → a ≢ cur
  only a n e = absurd (ground (arith, n, e))

  none-waits : (a : Ptr) → has a (cur ∷ []) ≡ true → sem_at m.pcbs a ≡ null
  none-waits a mem = ap (sem_at m.pcbs) (eq_of_== a cur (ground (arith, mem))) ∙ w.free

  pub before-IsTable : IsTable before lo hi es ds
  before-IsTable =
      IsTable-Apart {ys = cur ∷ []} m before refl refl refl
        (record {
          same_live = live-kept m state w.lc;
          outside = λ a n. kept-other m state w.lc a (only a n);
          idle = none-waits;
        })
        w.table

  pub enq : Enlisted before lo hi i cur es ds
  enq =
      insert_blocked_lem before lo hi i cur es ds before-IsTable w.low w.high w.room
        (live-kept m state w.lc cur ∙ w.lc)
        (ap (λ (c : Pcb). c.p_sem_add) (kept-current m state w.lc) ∙ w.free)

  abbrev pub blocked : Machine
  blocked = record before { pcbs = enq.heap; semds = enq.table; semd_free_h = enq.head }

  pub block_on-runs : block_on i state m ≡ ok tt blocked
  unfolding block_on charge
  block_on-runs =
      rw
        (
          stck-ok m w.scale,
          modify_pcb-ok (record m { readings = suc m.readings }) cur w.lc,
          load_state-ok (record m { readings = suc m.readings; pcbs = charged_heap m state }) state
              w.saved,
          modify_pcb-ok (record m { readings = suc m.readings; pcbs = charged_heap m state }) cur
              (simp live-upd w.lc),
          enq.runs,
        )
        refl

  ready-outside :
      (a : Ptr) → has a (y ∷ ys) ≡ true → get blank_pcb enq.heap a ≡ get blank_pcb m.pcbs a
  ready-outside a mem =
      enq.outside a (w.apart a mem)
      ∙ kept-other m state w.lc a (λ e. absurd (ground (arith, w.apart a mem, e)))

  pub ready-IsQueue : IsQueue enq.heap m.ready_que (y ∷ ys)
  ready-IsQueue =
      IsQueue-same (y ∷ ys) ready-outside (λ a. enq.same_live a ∙ live-kept m state w.lc a) w.queue

  module _ (n : Word) where
    abbrev pub waiting_now : Machine
    waiting_now = record blocked { current_proc = null; sft_blk_cnt = n }

    pub next : Dispatched waiting_now y ys
    next = scheduler-first waiting_now y ys ready-IsQueue w.scale

    unfoldable pub last : Machine
    last = record waiting_now {
      waiting = false;
      io_proc_time = 0;
      pcbs = next.heap;
      ready_que = next.tail;
      current_proc = y;
      timer = quantum;
      start_tod = clock_now waiting_now;
      readings = suc waiting_now.readings;
    }

    pub scheduler-runs : scheduler waiting_now ≡ exit (ldst (get blank_pcb m.pcbs y).p_s) last
    unfolding last
    scheduler-runs =
        next.runs ∙ ap (λ (c : Pcb). exit (ldst c.p_s) last) (ready-outside y (ground arith))

    kept-last : (get blank_pcb next.heap cur).p_s ≡ caller m state
    kept-last =
        ap (λ (c : Pcb). c.p_s) (next.frame.same_core cur)
        ∙ enq.same_state cur
        ∙ ap (λ (c : Pcb). c.p_s) (kept-current m state w.lc)
        ∙ copy_state-eq (caller m state) (get blank_pcb m.pcbs cur).p_s w.regs w.kept_regs

    last-IsTable : IsTable last lo hi enq.line enq.rest
    unfolding last
    last-IsTable =
        IsTable-Apart {ys = y ∷ ys} blocked last refl refl refl
          (record {
            same_live = next.frame.same_live;
            outside = next.frame.outside;
            idle = λ a mem. ap (λ (c : Pcb). c.p_sem_add) (ready-outside a mem) ∙ w.idle a mem;
          })
          enq.state

    pub last-Parked : Parked m last state i lo hi y ys es n
    unfolding last
    last-Parked = record {
      ints = refl;
      count = refl;
      line = enq.line;
      rest = enq.rest;
      table = last-IsTable;
      waiters = enq.waiters;
      others = enq.others;
      current = refl;
      ready = next.queue;
      saved = kept-last;
    }
