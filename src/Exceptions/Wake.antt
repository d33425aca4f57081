-- ===== src/Exceptions/Wake.antt =====
-- System call 3 where processes wait.
use patrick_landon_os.Asl.Remove.{remove_blocked_lem}
use patrick_landon_os.Asl.Retire.{Withdrawn}
use patrick_landon_os.Asl.{remove_blocked}
use patrick_landon_os.Base.{
  ◌≡◌, ◌≢◌, ◌∙◌, ap, true, false, List, [], ◌∷◌, ◌++◌, has, ◌+w◌, is_npos, arith, ==_ne, ◌<◌,
  Bool-cases, inl, inr, ◌==◌, eq_of_==, refl,
}
use patrick_landon_os.Const.{max_int, min_int}
use patrick_landon_os.Types.{Pcb}
use patrick_landon_os.Machine.Memory.{Ptr, null, live, get, get-upd_self, live-upd, live-ne}
use patrick_landon_os.Machine.{Machine, exit, ldst}
use patrick_landon_os.Machine.Lemmas.{load_int-ok, modify_int-ok, load_state-ok}
use patrick_landon_os.Pcb.Queue.Links.{IsQueue, IsQueue-same}
use patrick_landon_os.Pcb.Queue.Insert.{Inserted, insert_proc_q-append}
use patrick_landon_os.Asl.Entries.{Entry, waiting_on, sem_at}
use patrick_landon_os.Asl.Apart.{Apart-same, IsTable-Apart}
use patrick_landon_os.Exceptions.Semaphores.{caller, sem_of, resumes}
use patrick_landon_os.Exceptions.Calls.{V}
use patrick_landon_os.Asl.Table.{IsTable}

-- What system call 3 leaves behind when it wakes `x`, and `zs` still wait.
pub record Woken (m : Machine) (state lo hi x : Ptr) (zs xs : List Ptr) (es : List Entry)
    : Type 0 where
  pub last : Machine
  pub runs : V state m ≡ exit (ldst (caller m state)) last
  pub value : get 0 last.ints (sem_of m state) ≡ (get 0 m.ints (sem_of m state) +w 1)
  pub line : List Entry
  pub rest : List Ptr
  pub table : IsTable last lo hi line rest
  pub waiters : waiting_on (sem_of m state) line ≡ zs
  pub others : (j : Ptr) → j ≢ sem_of m state → waiting_on j line ≡ waiting_on j es
  pub ready : IsQueue last.pcbs last.ready_que (xs ++ x ∷ [])

-- A call on a semaphore that stays at 0 or below and that processes wait on, where no ready process is
-- blocked.
pub record CanWake (m : Machine) (state lo hi x : Ptr) (zs xs : List Ptr) (es : List Entry)
    (ds : List Ptr) : Type 0 where
  pub saved : live m.states state ≡ true
  pub sem : live m.ints (sem_of m state) ≡ true
  pub table : IsTable m lo hi es ds
  pub low : min_int < sem_of m state
  pub high : sem_of m state < max_int
  pub line : waiting_on (sem_of m state) es ≡ (x ∷ zs)
  pub waited : is_npos (get 0 m.ints (sem_of m state) +w 1) ≡ true
  pub queue : IsQueue m.pcbs m.ready_que xs
  pub idle : (a : Ptr) → has a xs ≡ true → sem_at m.pcbs a ≡ null
  pub apart : (a : Ptr) → has a xs ≡ true → has a (x ∷ zs) ≡ false

module _ (m : Machine) (state lo hi x : Ptr) (zs xs : List Ptr) (es : List Entry) (ds : List Ptr)
    (w : CanWake m state lo hi x zs xs es ds) where
  abbrev i : Ptr
  i = sem_of m state

  abbrev raised : Machine
  raised = resumes m state i (λ v. v +w 1)

  raised-IsTable : IsTable raised lo hi es ds
  raised-IsTable = IsTable-Apart m raised refl refl refl (Apart-same m.pcbs) w.table

  taken : Withdrawn (remove_blocked i) raised lo hi i x zs es
  taken = remove_blocked_lem raised lo hi i es ds raised-IsTable w.low w.high x zs w.line

  woken : Machine
  woken = record raised { pcbs = taken.heap; semds = taken.table; semd_free_h = taken.head }

  not_ready : has x xs ≡ false
  not_ready = elim (Bool-cases (has x xs)) [
    | inl mem ↦ absurd (ground (arith, w.apart x mem))
    | inr none ↦ none
  ]

  ready-kept : IsQueue taken.heap m.ready_que xs
  ready-kept = IsQueue-same xs (λ a mem. taken.outside a (w.apart a mem)) taken.same_live w.queue

  ins : Inserted woken m.ready_que x xs
  unfolding woken
  ins = insert_proc_q-append woken m.ready_que x xs ready-kept taken.alive not_ready

  last : Machine
  last = record woken { pcbs = ins.heap; ready_que = x }

  V-runs : V state m ≡ exit (ldst (caller m state)) last
  unfolding V woken last
  V-runs = rw (
    load_state-ok m state w.saved,
    modify_int-ok m i w.sem,
    load_int-ok raised i (simp live-upd w.sem),
    get-upd_self 0 m.ints i (λ v. v +w 1) w.sem,
    w.waited,
    taken.runs,
    ==_ne x null (live-ne taken.heap x taken.alive),
    ins.runs,
    load_state-ok last state w.saved,
  )

  idle-woken : (a : Ptr) → has a (x ∷ xs) ≡ true → sem_at taken.heap a ≡ null
  idle-woken a mem = elim (Bool-cases (a == x)) [
    | inl e ↦ ap (sem_at taken.heap) (eq_of_== a x e) ∙ taken.no_sem
    | inr ne ↦
        let mem' : has a xs ≡ true = ground arith in
        ap (λ (c : Pcb). c.p_sem_add) (taken.outside a (w.apart a mem')) ∙ w.idle a mem'
  ]

  last-IsTable : IsTable last lo hi taken.line taken.rest
  unfolding woken last
  last-IsTable =
      IsTable-Apart {ys = x ∷ xs} woken last refl refl refl
        (record { same_live = ins.frame.same_live; outside = ins.frame.outside; idle = idle-woken })
        taken.state

-- System call 3 on a semaphore that stays at 0 or below and that processes wait on, where no ready
-- process is blocked: the semaphore is one more; the first of the processes that wait on it goes to the
-- end of the ready queue, behind the others in their order; the rest still wait in their order, the
-- waiting processes of every other semaphore are as before, and the descriptors are again all on the
-- active list, in the order of their addresses, or on the free list; the caller goes on.
pub V-Woken :
    (m : Machine) (state lo hi x : Ptr) (zs xs : List Ptr) (es : List Entry) (ds : List Ptr)
    → CanWake m state lo hi x zs xs es ds
    → Woken m state lo hi x zs xs es
unfolding last woken
V-Woken m state lo hi x zs xs es ds w =
    let t = taken m state lo hi x zs xs es ds w in
    let n = ins m state lo hi x zs xs es ds w in
    record {
      last = last m state lo hi x zs xs es ds w;
      runs = V-runs m state lo hi x zs xs es ds w;
      value = get-upd_self 0 m.ints (sem_of m state) (λ v. v +w 1) w.sem;
      line = t.line;
      rest = t.rest;
      table = last-IsTable m state lo hi x zs xs es ds w;
      waiters = t.waiters;
      others = t.others;
      ready = n.queue;
    }
