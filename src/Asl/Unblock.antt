-- ===== src/Asl/Unblock.antt =====
-- `removeBlocked` on a semaphore that several processes wait on.
use patrick_landon_os.Asl.Withdraw.{
  freed, lx, freed-Requeued, Taken, freed-none, freed-live, freed-outside,
}
use patrick_landon_os.Base.{
  ◌<◌, ◌≡◌, ◌≢◌, refl, sym, ◌∙◌, true, false, List, ◌∷◌, has, arith, ==_ne, ==_self, inl, inr,
  subst, [],
}
use patrick_landon_os.Asl.{remove_blocked, with_proc_q, Ptr, null, Pcb, max_int, Semd}
use patrick_landon_os.Machine.{Machine, ok, set_pcbs}
use patrick_landon_os.Machine.Memory.{
  Ptr, live, Store, live-upd, get, upd, null, get-upd_self, live-ne,
}
use patrick_landon_os.Pcb.Queue.Links.{IsQueue, tail-live}
use patrick_landon_os.Asl.Entries.{
  place_before, queue_at, sem_at, Entry, IsAsl, update, waiting_on, place, after, place_before,
}
use patrick_landon_os.Pcb.Queue.Remove.{Removed, remove_proc_q-cons}
use patrick_landon_os.Types.{Pcb, blank_pcb, blank_semd, Semd}
use patrick_landon_os.Machine.Lemmas.{load_semd-ok, modify_semd-ok, modify_pcb-ok}
use patrick_landon_os.Const.{max_int}
use patrick_landon_os.Asl.Find.{after-place_before, find_a_semd-place_before}
use patrick_landon_os.Asl.Head.{Found, place-Found}
use patrick_landon_os.Asl.Requeue.{IsAsl-update, waiting_on-update, waiting_on-update_other}

pub Removed-Taken :
    {m : Machine} {t x : Ptr} {zs : List Ptr} (i : Ptr)
    → IsQueue m.pcbs t (x ∷ zs)
    → ((a : Ptr) → has a (x ∷ zs) ≡ true → sem_at m.pcbs a ≡ i)
    → (r : Removed m t x zs) → Taken m.pcbs r.heap i x r.tail zs
Removed-Taken {x} i q own r = record {
  queue = r.queue;
  frame = r.frame;
  alive = q.lives x (ground arith);
  new = q.distinct.0;
  own = own;
}

cons-ne : {x : Ptr} {zs : List Ptr} → (x ∷ zs) ≢ []
cons-ne e = cc

-- What `removeBlocked` leaves behind when it takes `x`, and `zs` still wait.
pub record Unblocked (m : Machine) (lo hi i x : Ptr) (zs : List Ptr) (es : List Entry)
    : Type 0 where
  pub heap : Store Pcb
  pub table : Store Semd
  pub runs : remove_blocked i m ≡ ok x (record m { pcbs = heap; semds = table })
  pub asl : IsAsl (record m { pcbs = heap; semds = table }) lo hi (update i zs es)
  pub waiters : waiting_on i (update i zs es) ≡ zs
  pub others : (j : Ptr) → j ≢ i → waiting_on j (update i zs es) ≡ waiting_on j es
  pub no_sem : sem_at heap x ≡ null
  pub alive : live heap x ≡ true
  pub same_live : (a : Ptr) → live heap a ≡ live m.pcbs a
  pub outside : (a : Ptr) → has a (x ∷ zs) ≡ false → get blank_pcb heap a ≡ get blank_pcb m.pcbs a

-- `removeBlocked` for a semaphore that two processes or more wait on: it returns the first of them,
-- which is then blocked on nothing; the others still wait, in their order, the waiting processes of
-- every other semaphore are as before, and the list is still in order.
pub remove_blocked-cons :
    (m : Machine) (lo hi i x y : Ptr) (ys : List Ptr) (es : List Entry)
    → IsAsl m lo hi es
    → i < max_int
    → waiting_on i es ≡ (x ∷ y ∷ ys)
    → Unblocked m lo hi i x (y ∷ ys) es
unfolding remove_blocked
remove_blocked-cons m lo hi i x y ys es l h line =
    let s = place hi i es in
    let before =
      after-place_before m hi i l.hi_live l.hi_key (omega arith) lo es l.lo_live l.descs in
    let found =
      subst (λ zs. Found m.semds m.pcbs i s zs) line
        (place-Found m.semds m.pcbs hi i l.hi_live l.hi_key h (after m.semds lo) es l.descs l.rises
          l.waits) in
    elim found.1 [
      | inr e ↦ cc
      | inl e ↦
          let gone = remove_proc_q-cons m (queue_at m.semds s) x (y ∷ ys) e.1 in
          let c = Removed-Taken i e.1 e.2 gone in
          let shorter = record m {
            pcbs = gone.heap;
            semds = upd m.semds s (with_proc_q gone.tail);
          } in
          record {
            heap = freed c;
            table = upd m.semds s (with_proc_q gone.tail);
            runs =
                rw
                  (
                    find_a_semd-place_before m lo hi i es l (omega arith),
                    load_semd-ok m (place_before lo i es) before.0,
                    before.1,
                    load_semd-ok m s found.0,
                    e.0,
                    ==_self i,
                    gone.runs,
                    modify_semd-ok (set_pcbs gone.heap m) s found.0,
                    load_semd-ok shorter s (simp live-upd found.0),
                    get-upd_self blank_semd m.semds s (with_proc_q gone.tail) found.0,
                    ==_ne gone.tail null (live-ne gone.heap gone.tail (tail-live gone.queue)),
                    modify_pcb-ok shorter x (lx c),
                  )
                  refl;
            asl =
                IsAsl-update m lo hi i gone.tail (y ∷ ys) es (freed c) l found.0 e.0
                  (freed-Requeued c (λ q. cc));
            waiters = waiting_on-update i (y ∷ ys) es (λ q. cons-ne (sym line ∙ q));
            others = λ j ne. waiting_on-update_other i j (y ∷ ys) es ne;
            no_sem = freed-none c;
            alive = freed-live c x ∙ c.alive;
            same_live = freed-live c;
            outside = freed-outside c;
          }
    ]
