-- ===== src/Asl/Update.antt =====
-- The active semaphore list where the queue of one semaphore changes.
use patrick_landon_os.Base.{
  ◌≡◌, ◌≢◌, refl, sym, ap, ◌∙◌, true, List, [], ◌∷◌, has, arith, ◌==◌, ==_ne, ==_self, subst,
  Bool-cases, inl, inr, eq_of_==, ne_of_==, ltb, length, ◌<◌, suc, ◌≤◌, if◌then◌else◌,
}
use patrick_landon_os.Asl.{with_proc_q, Ptr, Semd, max_int, suc, Pcb, null}
use patrick_landon_os.Asl.Entries.{
  Entry, Rises, update, key_at, after, Descs, place, queue_at, Waiting, with_procs, sem_at, Waits,
}
use patrick_landon_os.Machine.Memory.{Ptr, Store, live, upd, get-upd, live-upd, get, null}
use patrick_landon_os.Types.{Semd, blank_semd, Pcb, blank_pcb}
use patrick_landon_os.Const.{max_int}
use patrick_landon_os.Pcb.Queue.Links.{IsQueue, IsQueue-same}
use patrick_landon_os.Asl.Head.{Rises-tail}

-- The keys stay below the address of the second dummy.
Rises-below : (e : Entry) (es : List Entry) → Rises (e ∷ es) → e.key < max_int
Rises-below e [] r = r
Rises-below e (f ∷ es) r = omega (arith, r.0, Rises-below f es r.1)

pub Rises-update : (i : Ptr) (zs : List Ptr) (es : List Entry) → Rises es → Rises (update i zs es)
Rises-update i zs [] r = tt
Rises-update i zs (e ∷ []) r = r
Rises-update i zs (e ∷ f ∷ es) r = (r.0, Rises-update i zs (f ∷ es) r.1)

pub length-update :
    (i : Ptr) (zs : List Ptr) (es : List Entry) → length (update i zs es) ≡ length es
length-update i zs [] = refl
length-update i zs (e ∷ es) = ap suc (length-update i zs es)

-- An entry for the semaphore `i` can only be the descriptor `s`.
abbrev pub Owns : (i s : Ptr) → List Entry → Type 0
Owns i s [] = Unit
Owns i s (e ∷ es) = (e.key ≡ i → e.desc ≡ s) × Owns i s es

Owns-higher : (i s : Ptr) (e : Entry) (es : List Entry) → Rises (e ∷ es) → i ≤ e.key → Owns i s es
Owns-higher i s e [] r h = tt
Owns-higher i s e (f ∷ es) r h =
    ((λ q. absurd (omega (arith, r.0))), Owns-higher i s f es r.1 (omega (arith, r.0)))

Owns-eq : {s t : Ptr} (i : Ptr) (es : List Entry) → t ≡ s → Owns i s es → Owns i t es
Owns-eq i es e o = subst (λ a. Owns i a es) (sym e) o

pub place-Owns : (hi i : Ptr) (es : List Entry) → Rises es → Owns i (place hi i es) es
place-Owns hi i [] r = tt
place-Owns hi i (e ∷ es) r = elim (Bool-cases (ltb e.key i)) [
  | inl lt ↦ (
    (λ q. absurd (ground arith)),
    Owns-eq i es (rw lt refl) (place-Owns hi i es (Rises-tail e es r)),
  )
  | inr ge ↦
      ((λ q. rw ge refl), Owns-eq i es (rw ge refl) (Owns-higher i e.desc e es r (ground arith)))
]

module _ (h : Store Semd) (s q : Ptr) (ls : live h s ≡ true) where
  pub after-with_proc_q : (a : Ptr) → after (upd h s (with_proc_q q)) a ≡ after h a
  after-with_proc_q a = ground (arith, get-upd blank_semd h s (with_proc_q q) a ls)

  pub key_at-with_proc_q : (a : Ptr) → key_at (upd h s (with_proc_q q)) a ≡ key_at h a
  key_at-with_proc_q a = ground (arith, get-upd blank_semd h s (with_proc_q q) a ls)

  queue_at-with_proc_q :
      (a : Ptr) → queue_at (upd h s (with_proc_q q)) a ≡ (if a == s then q else queue_at h a)
  queue_at-with_proc_q a = ground (arith, get-upd blank_semd h s (with_proc_q q) a ls)

  pub Descs-update :
      (hi i a : Ptr) (zs : List Ptr) (es : List Entry)
      → Descs h hi a es
      → Descs (upd h s (with_proc_q q)) hi a (update i zs es)
  Descs-update hi i a zs [] d = d
  Descs-update hi i a zs (e ∷ es) d = (
    d.0,
    live-upd h s (with_proc_q q) e.desc ∙ d.1,
    key_at-with_proc_q e.desc ∙ d.2,
    subst (λ n. Descs (upd h s (with_proc_q q)) hi n (update i zs es))
        (sym (after-with_proc_q e.desc)) (Descs-update hi i (after h e.desc) zs es d.3),
  )

-- The processes change only in the queue of the semaphore `i`, which becomes `zs`.
pub record Requeued (k g : Store Pcb) (i t : Ptr) (zs : List Ptr) : Type 0 where
  pub queue : IsQueue g t zs
  pub some : zs ≢ []
  pub same_live : (a : Ptr) → live g a ≡ live k a
  pub outside :
      (a : Ptr) → sem_at k a ≢ i → sem_at k a ≢ null → get blank_pcb g a ≡ get blank_pcb k a
  pub owned : (a : Ptr) → has a zs ≡ true → sem_at g a ≡ i

module _ (h : Store Semd) (s i t : Ptr) (ls : live h s ≡ true) (ks : key_at h s ≡ i)
    (k g : Store Pcb) (zs : List Ptr) (c : Requeued k g i t zs) where
  Waiting-with_procs :
      (e : Entry)
      → e.key < max_int
      → key_at h e.desc ≡ e.key
      → (e.key ≡ i → e.desc ≡ s)
      → Waiting h k e
      → Waiting (upd h s (with_proc_q t)) g (with_procs i zs e)
  Waiting-with_procs e below ke own w = elim (Bool-cases (e.key == i)) [
    | inl eq ↦
        let o = own (eq_of_== e.key i eq) in
        rw (eq, queue_at-with_proc_q h s t ls e.desc, o, ==_self s)
          (c.queue, c.some, (λ a mem. c.owned a mem ∙ sym (eq_of_== e.key i eq)))
    | inr ne ↦
        rw
          (
            ne,
            queue_at-with_proc_q h s t ls e.desc,
            ==_ne e.desc s (λ q. ne_of_== e.key i ne (sym ke ∙ ap (key_at h) q ∙ ks)),
          )
          (
            IsQueue-same e.procs (λ a mem. same (ne_of_== e.key i ne) a (w.2 a mem)) c.same_live
                w.0,
            w.1,
            (λ a mem.
                ap (λ (d : Pcb). d.p_sem_add) (same (ne_of_== e.key i ne) a (w.2 a mem))
                ∙ w.2 a mem),
          )
  ]
    where
      same : e.key ≢ i → (a : Ptr) → sem_at k a ≡ e.key → get blank_pcb g a ≡ get blank_pcb k a
      same ne a mine =
          c.outside a (λ q. ne (sym mine ∙ q)) (λ q. absurd (omega (arith, below, mine, q)))

  pub Waits-update :
      (hi a : Ptr) (es : List Entry)
      → Descs h hi a es
      → Rises es
      → Owns i s es
      → Waits h k es
      → Waits (upd h s (with_proc_q t)) g (update i zs es)
  Waits-update hi a [] d r o w = tt
  Waits-update hi a (e ∷ es) d r o w = (
    Waiting-with_procs e (Rises-below e es r) d.2 o.0 w.0,
    Waits-update hi (after h e.desc) es d.3 (Rises-tail e es r) o.1 w.1,
  )
