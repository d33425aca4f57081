-- ===== src/Interrupts/Signal.antt =====
-- The interrupt of a device that a process waits for.
use patrick_landon_os.Base.{
  ◌≡◌, ◌≢◌, ◌∙◌, ap, refl, true, false, List, [], ◌∷◌, ◌++◌, has, Word, ◌+w◌, ◌-w◌, is_npos,
  bit_and, arith, ==_ne, ◌<◌, Bool-cases, inl, inr, ◌==◌, eq_of_==, ne_of_has,
}
use patrick_landon_os.Const.{max_int, min_int, status_mask}
use patrick_landon_os.Types.{Pcb, blank_pcb, set_reg, s_v0, Device}
use patrick_landon_os.Machine.{Machine, ok, Cmd}
use patrick_landon_os.Machine.Memory.{
  Ptr, null, live, get, upd, get-upd, get-upd_self, live-upd, live-ne, Store,
}
use patrick_landon_os.Machine.Lemmas.{load_int-ok, modify_int-ok, modify_pcb-ok}
use patrick_landon_os.Pcb.Queue.Links.{IsQueue, IsQueue-same}
use patrick_landon_os.Pcb.Queue.Insert.{Inserted, insert_proc_q-append}
use patrick_landon_os.Asl.{remove_blocked}
use patrick_landon_os.Asl.Entries.{Entry, waiting_on, sem_at}
use patrick_landon_os.Asl.Table.{IsTable}
use patrick_landon_os.Asl.Retire.{Withdrawn}
use patrick_landon_os.Asl.Remove.{remove_blocked_lem}
use patrick_landon_os.Asl.Apart.{IsTable-Apart, Apart-same}
use patrick_landon_os.Interrupts.{signal_device}

-- The semaphore `i` stays at 0 or below, processes wait on it, and no ready process is blocked.
pub record CanSignal (m : Machine) (i lo hi x : Ptr) (zs xs : List Ptr) (es : List Entry)
    (ds : List Ptr) : Type 0 where
  pub sem : live m.ints i ≡ true
  pub waited : is_npos (get 0 m.ints i +w 1) ≡ true
  pub table : IsTable m lo hi es ds
  pub low : min_int < i
  pub high : i < max_int
  pub line : waiting_on i es ≡ (x ∷ zs)
  pub queue : IsQueue m.pcbs m.ready_que xs
  pub idle : (a : Ptr) → has a xs ≡ true → sem_at m.pcbs a ≡ null
  pub apart : (a : Ptr) → has a xs ≡ true → has a (x ∷ zs) ≡ false

-- What `op` leaves behind when `x` is woken with the status of the device, and the registers of the
-- devices are `devices`.
pub record Signalled (op : Cmd (Unit {0})) (m : Machine) (i lo hi x : Ptr) (status : Word)
    (zs xs : List Ptr) (es : List Entry) (devices : Store Device) : Type 0 where
  pub last : Machine
  pub runs : op m ≡ ok tt last
  pub registers : last.devices ≡ devices
  pub value : get 0 last.ints i ≡ (get 0 m.ints i +w 1)
  pub count : last.sft_blk_cnt ≡ (m.sft_blk_cnt -w 1)
  pub still : last.waiting ≡ m.waiting
  pub scale : last.timescale ≡ m.timescale
  pub freed : sem_at last.pcbs x ≡ null
  pub answer :
      (get blank_pcb last.pcbs x).p_s
      ≡ set_reg s_v0 (bit_and status status_mask) (get blank_pcb m.pcbs x).p_s
  pub line : List Entry
  pub rest : List Ptr
  pub table : IsTable last lo hi line rest
  pub waiters : waiting_on i line ≡ zs
  pub others : (j : Ptr) → j ≢ i → waiting_on j line ≡ waiting_on j es
  pub ready : IsQueue last.pcbs last.ready_que (xs ++ x ∷ [])

module _ (m : Machine) (i lo hi x : Ptr) (status : Word) (zs xs : List Ptr) (es : List Entry)
    (ds : List Ptr) (c : CanSignal m i lo hi x zs xs es ds) where
  abbrev raised : Machine
  raised = record m { ints = upd m.ints i (λ v. v +w 1) }

  taken : Withdrawn (remove_blocked i) raised lo hi i x zs es
  taken =
      remove_blocked_lem raised lo hi i es ds
        (IsTable-Apart m raised refl refl refl (Apart-same m.pcbs) c.table) c.low c.high x zs c.line

  abbrev answers : Pcb → Pcb
  answers d = record d { p_s = set_reg s_v0 (bit_and status status_mask) d.p_s }

  abbrev woken : Machine
  woken = record raised { pcbs = taken.heap; semds = taken.table; semd_free_h = taken.head }

  abbrev answered : Machine
  answered = record woken { sft_blk_cnt = m.sft_blk_cnt -w 1; pcbs = upd taken.heap x answers }

  get-answered : (a : Ptr) → a ≢ x → get blank_pcb answered.pcbs a ≡ get blank_pcb taken.heap a
  get-answered a ne = get-upd blank_pcb taken.heap x answers a taken.alive ∙ rw (==_ne a x ne) refl

  not_ready : has x xs ≡ false
  not_ready = elim (Bool-cases (has x xs)) [
    | inl mem ↦ absurd (ground (arith, c.apart x mem))
    | inr none ↦ none
  ]

  ready-kept : IsQueue answered.pcbs m.ready_que xs
  ready-kept =
      IsQueue-same xs
        (λ a mem. get-answered a (ne_of_has a x xs mem not_ready) ∙ taken.outside a (c.apart a mem))
        (λ a. live-upd taken.heap x answers a ∙ taken.same_live a) c.queue

  ins : Inserted answered m.ready_que x xs
  ins =
      insert_proc_q-append answered m.ready_que x xs ready-kept
        (live-upd taken.heap x answers x ∙ taken.alive) not_ready

  last : Machine
  last = record answered { pcbs = ins.heap; ready_que = x }

  signal-runs : signal_device i status m ≡ ok tt last
  unfolding signal_device last
  signal-runs =
      rw
        (
          modify_int-ok m i c.sem,
          load_int-ok raised i (simp live-upd c.sem),
          get-upd_self 0 m.ints i (λ v. v +w 1) c.sem,
          c.waited,
          taken.runs,
          ==_ne x null (live-ne taken.heap x taken.alive),
          modify_pcb-ok (record woken { sft_blk_cnt = m.sft_blk_cnt -w 1 }) x taken.alive,
          ins.runs,
        )
        refl

  idle-woken : (a : Ptr) → has a (x ∷ xs) ≡ true → sem_at taken.heap a ≡ null
  idle-woken a mem = elim (Bool-cases (a == x)) [
    | inl e ↦ ap (sem_at taken.heap) (eq_of_== a x e) ∙ taken.no_sem
    | inr ne ↦
        let mem' : has a xs ≡ true = ground (arith, mem, ne) in
        ap (λ (d : Pcb). d.p_sem_add) (taken.outside a (c.apart a mem')) ∙ c.idle a mem'
  ]

  last-IsTable : IsTable last lo hi taken.line taken.rest
  unfolding last
  last-IsTable =
      IsTable-Apart {ys = x ∷ xs} woken last refl refl refl
        (record {
          same_live = λ a. ins.frame.same_live a ∙ live-upd taken.heap x answers a;
          outside =
              λ a n. ins.frame.outside a n ∙ get-answered a (λ q. absurd (ground (arith, n, q)));
          idle = idle-woken;
        })
        taken.state

  last-answer :
      (get blank_pcb ins.heap x).p_s
      ≡ set_reg s_v0 (bit_and status status_mask) (get blank_pcb m.pcbs x).p_s
  last-answer =
      ap (λ (d : Pcb). d.p_s) (ins.frame.same_core x)
      ∙ ap (λ (d : Pcb). d.p_s) (get-upd_self blank_pcb taken.heap x answers taken.alive)
      ∙ ap (set_reg s_v0 (bit_and status status_mask)) (taken.same_state x)

  last-freed : sem_at ins.heap x ≡ null
  last-freed =
      ap (λ (d : Pcb). d.p_sem_add) (ins.frame.same_core x)
      ∙ ap (λ (d : Pcb). d.p_sem_add) (get-upd_self blank_pcb taken.heap x answers taken.alive)
      ∙ taken.no_sem

-- The signal of a device where processes wait on its semaphore, which stays at 0 or below, and no ready
-- process is blocked: the semaphore is one more, and the registers are as before; the first of the processes that wait goes to the end
-- of the ready queue, behind the others in their order, with the status of the device in its `v0`, and
-- counts no more as blocked; the rest still wait in their order, the waiting processes of every other
-- semaphore are as before, and the descriptors are again all on the active list, in the order of their
-- addresses, or on the free list.
pub signal_device-Signalled :
    (m : Machine) (i lo hi x : Ptr) (status : Word) (zs xs : List Ptr) (es : List Entry)
    (ds : List Ptr)
    → CanSignal m i lo hi x zs xs es ds
    → Signalled (signal_device i status) m i lo hi x status zs xs es m.devices
unfolding last
signal_device-Signalled m i lo hi x status zs xs es ds c =
    let t = taken m i lo hi x status zs xs es ds c in
    record {
      last = last m i lo hi x status zs xs es ds c;
      runs = signal-runs m i lo hi x status zs xs es ds c;
      registers = refl;
      value = get-upd_self 0 m.ints i (λ v. v +w 1) c.sem;
      count = refl;
      still = refl;
      scale = refl;
      freed = last-freed m i lo hi x status zs xs es ds c;
      answer = last-answer m i lo hi x status zs xs es ds c;
      line = t.line;
      rest = t.rest;
      table = last-IsTable m i lo hi x status zs xs es ds c;
      waiters = t.waiters;
      others = t.others;
      ready = (ins m i lo hi x status zs xs es ds c).queue;
    }
