-- ===== src/Interrupts/Rouse.antt =====
-- The loop of the clock's interrupt, which wakes every process that waits for the clock.
use patrick_landon_os.Base.{
  ◌≡◌, ◌≢◌, ◌∙◌, ap, refl, true, false, List, [], ◌∷◌, ◌++◌, has, Word, ◌-w◌, arith, ==_ne, ◌<◌,
  Bool-cases, inl, inr, ◌==◌, eq_of_==, sym, subst, length, has-append, ℕ, zero, suc, if◌then◌else◌,
  append_assoc, append-nil,
}
use patrick_landon_os.Const.{max_int, min_int}
use patrick_landon_os.Types.{Pcb, Semd}
use patrick_landon_os.Machine.{Machine, ok, Cmd}
use patrick_landon_os.Machine.Memory.{Ptr, null, live-ne, Store}
use patrick_landon_os.Pcb.Queue.Links.{IsQueue, IsQueue-same}
use patrick_landon_os.Pcb.Queue.Insert.{Inserted, insert_proc_q-append}
use patrick_landon_os.Asl.{remove_blocked}
use patrick_landon_os.Asl.Head.{head_blocked-first}
use patrick_landon_os.Asl.Entries.{Entry, waiting_on, sem_at, Waits}
use patrick_landon_os.Asl.Table.{IsTable}
use patrick_landon_os.Asl.Retire.{Withdrawn}
use patrick_landon_os.Asl.Remove.{remove_blocked_lem}
use patrick_landon_os.Asl.Apart.{IsTable-Apart}
use patrick_landon_os.Interrupts.{wake_loop}

-- One after the other is taken from `v`.
abbrev pub count_down : ℕ → Word → Word
count_down zero v = v
count_down (suc k) v = count_down k (v -w 1)

module _ (h : Store Semd) (k : Store Pcb) (i a : Ptr) where
  waiting_on-sem_at :
      (es : List Entry) → Waits h k es → has a (waiting_on i es) ≡ true → sem_at k a ≡ i
  waiting_on-sem_at [] w mem = absurd (ground (arith, mem))
  waiting_on-sem_at (e ∷ es) w mem = elim (Bool-cases (e.key == i)) [
    | inl same ↦
        w.0.2 a (subst (λ b. has a (if b then e.procs else waiting_on i es) ≡ true) same mem)
        ∙ eq_of_== e.key i same
    | inr other ↦
        waiting_on-sem_at es w.1
          (subst (λ b. has a (if b then e.procs else waiting_on i es) ≡ true) other mem)
  ]

-- `zs` wait on the semaphore `i`, and the ready processes `xs` wait on nothing.
pub record CanRouse (m : Machine) (i lo hi : Ptr) (zs xs : List Ptr) (es : List Entry)
    (ds : List Ptr) : Type 0 where
  pub table : IsTable m lo hi es ds
  pub low : min_int < i
  pub high : i < max_int
  pub line : waiting_on i es ≡ zs
  pub queue : IsQueue m.pcbs m.ready_que xs
  pub idle : (a : Ptr) → has a xs ≡ true → sem_at m.pcbs a ≡ null

-- What `op` leaves behind when all that wait on the semaphore `i` are woken; `ints` are the values of
-- the semaphores then, and `timer` that of the interval timer.
pub record Roused (op : Cmd (Unit {0})) (m : Machine) (i lo hi : Ptr) (zs xs : List Ptr)
    (es : List Entry) (ints : Store Word) (timer : Word) : Type 0 where
  pub last : Machine
  pub runs : op m ≡ ok tt last
  pub values : last.ints ≡ ints
  pub interval : last.interval_timer ≡ timer
  pub scale : last.timescale ≡ m.timescale
  pub count : last.sft_blk_cnt ≡ count_down (length zs) m.sft_blk_cnt
  pub line : List Entry
  pub rest : List Ptr
  pub table : IsTable last lo hi line rest
  pub waiters : waiting_on i line ≡ []
  pub others : (j : Ptr) → j ≢ i → waiting_on j line ≡ waiting_on j es
  pub ready : IsQueue last.pcbs last.ready_que (xs ++ zs)

-- A round of the loop.
module _ (m : Machine) (i lo hi x : Ptr) (zs xs : List Ptr) (es : List Entry) (ds : List Ptr)
    (c : CanRouse m i lo hi (x ∷ zs) xs es ds) where
  taken : Withdrawn (remove_blocked i) m lo hi i x zs es
  taken = remove_blocked_lem m lo hi i es ds c.table c.low c.high x zs c.line

  abbrev woken : Machine
  woken = record m {
    pcbs = taken.heap;
    semds = taken.table;
    semd_free_h = taken.head;
    sft_blk_cnt = m.sft_blk_cnt -w 1;
  }

  apart : (a : Ptr) → has a xs ≡ true → has a (x ∷ zs) ≡ false
  apart a mem = elim (Bool-cases (has a (x ∷ zs))) [
    | inl waits ↦
        let own =
          waiting_on-sem_at m.semds m.pcbs i a es c.table.asl.waits (ap (has a) c.line ∙ waits) in
        absurd (omega (arith, sym own ∙ c.idle a mem, c.low))
    | inr none ↦ none
  ]

  not_ready : has x xs ≡ false
  not_ready = elim (Bool-cases (has x xs)) [
    | inl mem ↦ absurd (ground (arith, apart x mem))
    | inr none ↦ none
  ]

  ins : Inserted woken m.ready_que x xs
  ins =
      insert_proc_q-append woken m.ready_que x xs
        (IsQueue-same xs (λ a mem. taken.outside a (apart a mem)) taken.same_live c.queue)
        taken.alive not_ready

  after_round : Machine
  after_round = record woken { pcbs = ins.heap; ready_que = x }

  idle-taken : (a : Ptr) → has a (x ∷ xs) ≡ true → sem_at taken.heap a ≡ null
  idle-taken a mem = elim (Bool-cases (a == x)) [
    | inl e ↦ ap (sem_at taken.heap) (eq_of_== a x e) ∙ taken.no_sem
    | inr ne ↦
        let mem' : has a xs ≡ true = ground (arith, mem, ne) in
        ap (λ (d : Pcb). d.p_sem_add) (taken.outside a (apart a mem')) ∙ c.idle a mem'
  ]

  after_round-CanRouse : CanRouse after_round i lo hi zs (xs ++ x ∷ []) taken.line taken.rest
  unfolding after_round
  after_round-CanRouse = record {
    table =
        IsTable-Apart {ys = x ∷ xs} (record woken { sft_blk_cnt = m.sft_blk_cnt }) after_round refl
          refl refl
          (record {
            same_live = ins.frame.same_live;
            outside = ins.frame.outside;
            idle = idle-taken;
          })
          taken.state;
    low = c.low;
    high = c.high;
    line = taken.waiters;
    queue = ins.queue;
    idle = λ a mem.
        ap (λ (d : Pcb). d.p_sem_add) (ins.frame.same_core a)
        ∙ idle-taken a (ground (arith, mem, has-append a xs (x ∷ [])));
  }

  round-runs : (k : ℕ) → wake_loop (suc k) i m ≡ wake_loop k i after_round
  unfolding wake_loop after_round
  round-runs k =
      rw
        (
          head_blocked-first m lo hi i es c.table.asl c.high,
          c.line,
          ==_ne x null (live-ne taken.heap x taken.alive),
          taken.runs,
          ==_ne x null (live-ne taken.heap x taken.alive),
          ins.runs,
        )
        refl

wake_loop-none :
    (k : ℕ) (m : Machine) (i lo hi : Ptr) (xs : List Ptr) (es : List Entry) (ds : List Ptr)
    → CanRouse m i lo hi [] xs es ds
    → wake_loop (suc k) i m ≡ ok tt m
unfolding wake_loop
wake_loop-none k m i lo hi xs es ds c =
    rw (head_blocked-first m lo hi i es c.table.asl c.high, c.line) refl

-- The loop has rounds to spare where they are more than the processes that wait on the semaphore: it
-- ends, and they follow the ready processes, in their order; none is left, each counts no more as
-- blocked, and the waiting processes of every other semaphore are as before.
pub wake_loop-Roused :
    (k : ℕ) (m : Machine) (i lo hi : Ptr) (zs xs : List Ptr) (es : List Entry) (ds : List Ptr)
    → length zs < k
    → CanRouse m i lo hi zs xs es ds
    → Roused (wake_loop k i) m i lo hi zs xs es m.ints m.interval_timer
unfolding after_round
wake_loop-Roused zero m i lo hi zs xs es ds few c = absurd (omega (arith, few))
wake_loop-Roused (suc k) m i lo hi [] xs es ds few c = record {
  last = m;
  runs = wake_loop-none k m i lo hi xs es ds c;
  values = refl;
  interval = refl;
  scale = refl;
  count = refl;
  line = es;
  rest = ds;
  table = c.table;
  waiters = c.line;
  others = λ j ne. refl;
  ready = subst (IsQueue m.pcbs m.ready_que) (sym (append-nil xs)) c.queue;
}
wake_loop-Roused (suc k) m i lo hi (x ∷ zs) xs es ds few c =
    let s = after_round-CanRouse m i lo hi x zs xs es ds c in
    let t = taken m i lo hi x zs xs es ds c in
    let rec =
      wake_loop-Roused k (after_round m i lo hi x zs xs es ds c) i lo hi zs (xs ++ x ∷ []) t.line
        t.rest (omega (arith, few)) s in
    record {
      last = rec.last;
      runs = round-runs m i lo hi x zs xs es ds c k ∙ rec.runs;
      values = rec.values;
      interval = rec.interval;
      scale = rec.scale;
      count = rec.count;
      line = rec.line;
      rest = rec.rest;
      table = rec.table;
      waiters = rec.waiters;
      others = λ j ne. rec.others j ne ∙ t.others j ne;
      ready =
          subst (IsQueue rec.last.pcbs rec.last.ready_que) (append_assoc xs (x ∷ []) zs) rec.ready;
    }
