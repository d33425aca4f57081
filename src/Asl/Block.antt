-- ===== src/Asl/Block.antt =====
-- `insertBlocked` on a semaphore that processes wait on already.
use patrick_landon_os.Base.{
  ◌<◌, ◌≡◌, ◌≢◌, refl, ap, ◌∙◌, true, false, List, [], ◌∷◌, ◌++◌, has, arith, ◌==◌, ==_ne,
  Bool-cases, inl, inr, eq_of_==, ne_of_has, if◌then◌else◌, has-append, ==_self,
}
use patrick_landon_os.Asl.{
  with_proc_q, with_sem_add, Ptr, max_int, null, Pcb, insert_at, insert_blocked, Semd,
}
use patrick_landon_os.Machine.{continue, pure}
use patrick_landon_os.Asl.Update.{Requeued}
use patrick_landon_os.Machine.Memory.{get-upd, live-ne}
use patrick_landon_os.Machine.Lemmas.{load_semd-ok, modify_semd-ok, modify_pcb-ok}
use patrick_landon_os.Machine.{Machine, set_pcbs, ok}
use patrick_landon_os.Machine.Memory.{Ptr, live, null, upd, get, live-upd, Store, get-upd}
use patrick_landon_os.Pcb.Queue.Links.{IsQueue, IsQueue-same}
use patrick_landon_os.Asl.Entries.{
  queue_at, sem_at, Entry, IsAsl, waiting_on, place, after, place_before, update,
}
use patrick_landon_os.Const.{max_int}
use patrick_landon_os.Pcb.Queue.Insert.{Inserted, insert_proc_q-append}
use patrick_landon_os.Types.{Pcb, blank_pcb, Semd}
use patrick_landon_os.Machine.Lemmas.{load_semd-ok}
use patrick_landon_os.Asl.Find.{after-place_before, find_a_semd-place_before}
use patrick_landon_os.Asl.Head.{place-Found}
use patrick_landon_os.Asl.Requeue.{IsAsl-update, waiting_on-update, waiting_on-update_other}

-- A process that is blocked on nothing, and the descriptor of a semaphore with its queue `xs`.
module _ (m : Machine) (s i p : Ptr) (xs : List Ptr) (ls : live m.semds s ≡ true)
    (q : IsQueue m.pcbs (queue_at m.semds s) xs)
    (own : (a : Ptr) → has a xs ≡ true → sem_at m.pcbs a ≡ i) (in_range : i < max_int)
    (lp : live m.pcbs p ≡ true) (free : sem_at m.pcbs p ≡ null) where
  abbrev named : Store Pcb
  named = upd m.pcbs p (with_sem_add i)

  get-named :
      (a : Ptr)
      → get blank_pcb named a
        ≡ (if a == p then with_sem_add i (get blank_pcb m.pcbs a) else get blank_pcb m.pcbs a)
  get-named a = get-upd blank_pcb m.pcbs p (with_sem_add i) a lp

  live-named : (a : Ptr) → live named a ≡ live m.pcbs a
  live-named a = live-upd m.pcbs p (with_sem_add i) a

  new : has p xs ≡ false
  new = elim (Bool-cases (has p xs)) [
    | inl y ↦ absurd (omega (arith, own p y, free, in_range))
    | inr n ↦ n
  ]

  q' : IsQueue named (queue_at m.semds s) xs
  q' = IsQueue-same xs (λ a mem. ground (arith, get-named a, ne_of_has a p xs mem new)) live-named q

  pub ins : Inserted (set_pcbs named m) (queue_at m.semds s) p xs
  ins = insert_proc_q-append (set_pcbs named m) (queue_at m.semds s) p xs q' (live-named p ∙ lp) new

  sem_at-ins : (a : Ptr) → sem_at ins.heap a ≡ sem_at named a
  sem_at-ins a = ap (λ (c : Pcb). c.p_sem_add) (ins.frame.same_core a)

  append_one-ne : (zs : List Ptr) → (zs ++ p ∷ []) ≢ []
  append_one-ne [] e = cc
  append_one-ne (z ∷ zs) e = cc

  outside_of : (a : Ptr) → sem_at m.pcbs a ≢ i → sem_at m.pcbs a ≢ null → has a (p ∷ xs) ≡ false
  outside_of a ni nn = elim (Bool-cases (has a (p ∷ xs))) [
    | inl y ↦ elim (Bool-cases (a == p)) [
      | inl e ↦ absurd (nn (ap (sem_at m.pcbs) (eq_of_== a p e) ∙ free))
      | inr e ↦ absurd (ni (own a (ground (arith, y, e))))
    ]
    | inr n ↦ n
  ]

  owner : (a : Ptr) → has a (xs ++ p ∷ []) ≡ true → sem_at named a ≡ i
  owner a mem = ground (arith, get-named a, has-append a xs (p ∷ []), mem, own a)

  pub named-Requeued : Requeued m.pcbs ins.heap i p (xs ++ p ∷ [])
  named-Requeued = record {
    queue = ins.queue;
    some = append_one-ne xs;
    same_live = λ a. ins.frame.same_live a ∙ live-named a;
    outside = λ a ni nn.
        ins.frame.outside a (outside_of a ni nn)
        ∙ (get-named a ∙ rw (==_ne a p (λ e. nn (ap (sem_at m.pcbs) e ∙ free))) refl);
    owned = λ a mem. sem_at-ins a ∙ owner a mem;
  }

  pub outside_line :
      (a : Ptr) → has a (p ∷ xs) ≡ false → get blank_pcb ins.heap a ≡ get blank_pcb m.pcbs a
  outside_line a n =
      ins.frame.outside a n
      ∙ (get-named a ∙ rw (==_ne a p (λ e. absurd (ground (arith, n, e)))) refl)

  state-named : (a : Ptr) → (get blank_pcb named a).p_s ≡ (get blank_pcb m.pcbs a).p_s
  state-named a = ground (arith, get-named a)

  pub state-ins : (a : Ptr) → (get blank_pcb ins.heap a).p_s ≡ (get blank_pcb m.pcbs a).p_s
  state-ins a = ap (λ (c : Pcb). c.p_s) (ins.frame.same_core a) ∙ state-named a

  abbrev full : Machine
  full = record m { pcbs = ins.heap; semds = upd m.semds s (with_proc_q p) }

  pub insert_at-runs : insert_at s p (set_pcbs named m) ≡ ok tt full
  insert_at-runs =
      rw (load_semd-ok (set_pcbs named m) s ls, ins.runs, modify_semd-ok (set_pcbs ins.heap m) s ls)
        refl

-- What `insertBlocked` leaves behind.
pub record Enqueued (m : Machine) (lo hi i p : Ptr) (es : List Entry) : Type 0 where
  pub heap : Store Pcb
  pub table : Store Semd
  pub runs : insert_blocked i p m ≡ ok false (record m { pcbs = heap; semds = table })
  pub asl :
      IsAsl
        (record m { pcbs = heap; semds = table })
        lo
        hi
        (update i (waiting_on i es ++ p ∷ []) es)
  pub waiters : waiting_on i (update i (waiting_on i es ++ p ∷ []) es) ≡ waiting_on i es ++ p ∷ []
  pub others :
      (j : Ptr) → j ≢ i → waiting_on j (update i (waiting_on i es ++ p ∷ []) es) ≡ waiting_on j es
  pub same_live : (a : Ptr) → live heap a ≡ live m.pcbs a
  pub outside :
      (a : Ptr)
      → has a (p ∷ waiting_on i es) ≡ false
      → get blank_pcb heap a ≡ get blank_pcb m.pcbs a
  pub same_table : table ≡ upd m.semds (place hi i es) (with_proc_q p)
  pub same_state : (a : Ptr) → (get blank_pcb heap a).p_s ≡ (get blank_pcb m.pcbs a).p_s

-- `insertBlocked` of a process that is blocked on nothing, for a semaphore that processes wait on: it
-- returns False, the process is then the last of those that wait on the semaphore, the waiting
-- processes of every other semaphore are as before, and the list is still in order.
pub insert_blocked-append :
    (m : Machine) (lo hi i p : Ptr) (es : List Entry)
    → IsAsl m lo hi es
    → i < max_int
    → waiting_on i es ≢ []
    → live m.pcbs p ≡ true
    → sem_at m.pcbs p ≡ null
    → Enqueued m lo hi i p es
unfolding insert_blocked
insert_blocked-append m lo hi i p es l h some_wait lp free =
    let s = place hi i es in
    let before =
      after-place_before m hi i l.hi_live l.hi_key (omega arith) lo es l.lo_live l.descs in
    let found =
      place-Found m.semds m.pcbs hi i l.hi_live l.hi_key h (after m.semds lo) es l.descs l.rises
        l.waits in
    elim found.1 [
      | inr e ↦ absurd (some_wait e.1)
      | inl e ↦
          let xs = waiting_on i es in
          let c = named-Requeued m s i p xs found.0 e.1 e.2 h lp free in
          record {
            heap = (ins m s i p xs found.0 e.1 e.2 h lp free).heap;
            table = upd m.semds s (with_proc_q p);
            runs =
                rw
                  (
                    find_a_semd-place_before m lo hi i es l (omega arith),
                    load_semd-ok m (place_before lo i es) before.0,
                    ==_ne p null (live-ne m.pcbs p lp),
                    before.1,
                    load_semd-ok m s found.0,
                    e.0,
                    ==_self i,
                    modify_pcb-ok m p lp,
                  )
                  (ap (λ r. continue r (λ _. pure false))
                    (insert_at-runs m s i p xs found.0 e.1 e.2 h lp free));
            asl =
                IsAsl-update m lo hi i p (xs ++ p ∷ []) es
                  (ins m s i p xs found.0 e.1 e.2 h lp free).heap l found.0 e.0 c;
            waiters = waiting_on-update i (xs ++ p ∷ []) es some_wait;
            others = λ j ne. waiting_on-update_other i j (xs ++ p ∷ []) es ne;
            same_live = (named-Requeued m s i p xs found.0 e.1 e.2 h lp free).same_live;
            outside = outside_line m s i p xs found.0 e.1 e.2 h lp free;
            same_table = refl;
            same_state = state-ins m s i p xs found.0 e.1 e.2 h lp free;
          }
    ]
