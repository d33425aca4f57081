-- ===== src/Asl/Out.antt =====
-- `outBlocked`: what it does for a process anywhere in the queue of its semaphore.
use patrick_landon_os.Base.{
  ◌≡◌, ◌≢◌, ◌<◌, ◌++◌, refl, true, List, [], ◌∷◌, arith, ◌∙◌, sym, subst, inr, inl, ==_self, ==_ne,
  append-ne, last_or-append, has-append, Distinct-init, last_or, Distinct-middle, has-last_or,
}
use patrick_landon_os.Const.{max_int, min_int}
use patrick_landon_os.Types.{blank_semd}
use patrick_landon_os.Machine.{Machine, ok, set_pcbs, fault}
use patrick_landon_os.Machine.Memory.{Ptr, null, live, upd, live-upd, get-upd_self, live-ne}
use patrick_landon_os.Asl.{with_proc_q, with_sem_add, out_blocked, out_proc_q}
use patrick_landon_os.Asl.Entries.{Entry, place_before, sem_at, waiting_on, queue_at}
use patrick_landon_os.Asl.Table.{IsTable}
use patrick_landon_os.Machine.Lemmas.{modify_semd-ok, load_semd-ok, load_pcb-ok, modify_pcb-null}
use patrick_landon_os.Asl.Find.{find_a_semd-place_before}
use patrick_landon_os.Pcb.Queue.Links.{IsQueue}
use patrick_landon_os.Asl.Retire.{Withdrawn, Withdrawn-op, withdraw-Withdrawn}
use patrick_landon_os.Asl.Remove.{s, before, found}
use patrick_landon_os.Pcb.Queue.Out.{out_proc_q-tail, out_proc_q-not_tail}
use patrick_landon_os.Pcb.Queue.{out_proc_q}

module _ (m : Machine) (lo hi i p : Ptr) (es : List Entry) (ds : List Ptr)
    (t : IsTable m lo hi es ds) (low : min_int < i) (high : i < max_int) where
  -- `outBlocked` of the process that waits as the last on its semaphore: it returns the process, which is
  -- then blocked on nothing; the others still wait, in their order, the waiting processes of every other
  -- semaphore are as before, and the descriptors are again all on the active list, in the order of
  -- their addresses, or on the free list.
  pub out_blocked-last :
      (xs : List Ptr) → waiting_on i es ≡ xs ++ p ∷ [] → Withdrawn (out_blocked p) m lo hi i p xs es
  unfolding out_blocked
  out_blocked-last xs line =
      let at = s m lo hi i es ds t low high in
      let f = found m lo hi i es ds t low high (xs ++ p ∷ []) line in
      let b = before m lo hi i es ds t low high in
      elim f.1 [
        | inr e ↦ absurd (append-ne p xs [] e.1)
        | inl e ↦
            let is_tail : queue_at m.semds at ≡ p = sym e.1.tail ∙ last_or-append null xs p [] in
            let q = subst (λ a. IsQueue m.pcbs a (xs ++ p ∷ [])) is_tail e.1 in
            let gone = out_proc_q-tail m p xs q in
            let mine = e.2 p (ground (arith, has-append p xs (p ∷ []))) in
            let lp = e.1.lives p (ground (arith, has-append p xs (p ∷ []))) in
            Withdrawn-op {c = out_blocked p}
              (rw
                (
                  load_pcb-ok m p lp,
                  mine,
                  ==_ne i null (λ z. absurd (omega (arith, z, high))),
                  find_a_semd-place_before m lo hi i es t.asl (omega (arith, high)),
                  load_semd-ok m (place_before lo i es) b.0,
                  b.1,
                  load_semd-ok m at f.0,
                  e.0,
                  ==_self i,
                  subst (λ a. out_proc_q a p m ≡ ok (p, gone.tail) (set_pcbs gone.heap m))
                      (sym is_tail) gone.runs,
                )
                refl)
              (withdraw-Withdrawn m lo hi i p gone.tail gone.heap es ds t low high f.0 e.0 xs
                (record {
                  queue = gone.queue;
                  frame = gone.frame;
                  alive = lp;
                  new = (Distinct-init xs p q.distinct).1;
                  own = λ a mem. e.2 a (ground (arith, mem, has-append a xs (p ∷ [])));
                }))
      ]

  -- `outBlocked` of a process that is blocked on nothing returns NULL and changes nothing.
  pub out_blocked-none : live m.pcbs p ≡ true → sem_at m.pcbs p ≡ null → out_blocked p m ≡ ok null m
  unfolding out_blocked
  out_blocked-none lp none = rw (load_pcb-ok m p lp, none) refl

  -- `outBlocked` of a process behind which others wait on its semaphore: `outProcQ` does not find it and
  -- returns NULL, and the store through that NULL is a fault.
  pub out_blocked-stuck :
      (xs : List Ptr) (y : Ptr) (ys : List Ptr)
      → waiting_on i es ≡ xs ++ p ∷ y ∷ ys
      → out_blocked p m ≡ fault
  unfolding out_blocked
  out_blocked-stuck xs y ys line =
      let at = s m lo hi i es ds t low high in
      let f = found m lo hi i es ds t low high (xs ++ p ∷ y ∷ ys) line in
      let b = before m lo hi i es ds t low high in
      elim f.1 [
        | inr e ↦ absurd (append-ne p xs (y ∷ ys) e.1)
        | inl e ↦
            let t' = queue_at m.semds at in
            let is_tail : last_or y ys ≡ t' = sym (last_or-append null xs p (y ∷ ys)) ∙ e.1.tail in
            let last_mem = has-append (last_or y ys) xs (y ∷ ys) in
            let out = (Distinct-middle xs p (y ∷ ys) e.1.distinct).1 in
            let lt : live m.pcbs t' ≡ true =
              subst (λ a. live m.pcbs a ≡ true) is_tail
                (e.1.lives (last_or y ys)
                  (ground (arith, has-last_or y ys, has-append (last_or y ys) xs (p ∷ y ∷ ys)))) in
            let ne : p ≢ t' =
              λ z. absurd (ground (arith, z, is_tail, has-last_or y ys, last_mem, out)) in
            let here = has-append p xs (p ∷ y ∷ ys) in
            let n = record m { semds = upd m.semds at (with_proc_q t') } in
            rw
              (
                load_pcb-ok m p (e.1.lives p (ground (arith, here))),
                e.2 p (ground (arith, here)),
                ==_ne i null (λ z. absurd (omega (arith, z, high))),
                find_a_semd-place_before m lo hi i es t.asl (omega (arith, high)),
                load_semd-ok m (place_before lo i es) b.0,
                b.1,
                load_semd-ok m at f.0,
                e.0,
                ==_self i,
                out_proc_q-not_tail m t' p (xs ++ p ∷ y ∷ ys) e.1 ne,
                modify_semd-ok m at f.0,
                load_semd-ok n at (simp live-upd f.0),
                get-upd_self blank_semd m.semds at (with_proc_q t') f.0,
                ==_ne t' null (live-ne m.pcbs t' lt),
                modify_pcb-null n (with_sem_add null),
              )
              refl
      ]
