-- ===== src/Asl/Table.antt =====
-- The semaphore descriptors of a machine, each active or free.
use patrick_landon_os.Base.{
  ◌≡◌, ◌≢◌, ◌<◌, ◌+◌, false, List, [], ◌∷◌, has, length, arith, ltb, ◌==◌, Bool-cases, inl, inr,
  sym, true, subst, ◌∙◌, ap, eq_of_==, ne_of_==,
}
use patrick_landon_os.Const.{max_int, min_int, max_proc}
use patrick_landon_os.Types.{Semd, Pcb, blank_pcb}
use patrick_landon_os.Machine.{Machine}
use patrick_landon_os.Machine.Memory.{Ptr, Store, null, live, get, upd}
use patrick_landon_os.Pcb.Queue.Links.{IsQueue, IsQueue-same}
use patrick_landon_os.Asl.Entries.{
  Entry, IsAsl, Waits, Waiting, sem_at, key_at, queue_at, Descs, after, place, update,
}
use patrick_landon_os.Asl.FreeList.{IsFree, Frees, Frees-upd}
use patrick_landon_os.Asl.Splice.{Spliced}
use patrick_landon_os.Asl.Order.{
  Above, Absent, enter, without, Above-below, Above-Absent, Above-lower,
}
use patrick_landon_os.Asl.{with_proc_q}
use patrick_landon_os.Asl.Update.{key_at-with_proc_q, length-update}

-- The active semaphore list has the entries `es`, `semdFree_h` lists `ds`, and together they are the
-- `MAXPROC` descriptors that are not dummies; a free descriptor has no semaphore.
pub record IsTable (m : Machine) (lo hi : Ptr) (es : List Entry) (ds : List Ptr) : Type 0 where
  pub asl : IsAsl m lo hi es
  pub free : IsFree m ds
  pub lo_key : key_at m.semds lo ≡ min_int
  pub above : Above min_int es
  pub apart : has hi ds ≡ false
  pub idle : (a : Ptr) → has a ds ≡ true → key_at m.semds a ≡ null
  pub total : length es + length ds ≡ max_proc

-- The blocks of the semaphores other than `i` are as before.
pub record Keeps (k g : Store Pcb) (i : Ptr) : Type 0 where
  pub same_live : (a : Ptr) → live g a ≡ live k a
  pub outside :
      (a : Ptr) → sem_at k a ≢ i → sem_at k a ≢ null → get blank_pcb g a ≡ get blank_pcb k a

module _ (h g : Store Semd) (k l : Store Pcb) (i : Ptr) (c : Keeps k l i) where
  pub Waiting-other :
      (e : Entry)
      → e.key ≢ i
      → e.key < max_int
      → queue_at g e.desc ≡ queue_at h e.desc
      → Waiting h k e
      → Waiting g l e
  Waiting-other e ne below qe w = (
    subst (λ q. IsQueue l q e.procs) (sym qe)
        (IsQueue-same e.procs (λ a mem. same a (w.2 a mem)) c.same_live w.0),
    w.1,
    λ a mem. ap (λ (d : Pcb). d.p_sem_add) (same a (w.2 a mem)) ∙ w.2 a mem,
  )
    where
      same : (a : Ptr) → sem_at k a ≡ e.key → get blank_pcb l a ≡ get blank_pcb k a
      same a mine =
          c.outside a (λ q. ne (sym mine ∙ q)) (λ q. absurd (omega (arith, below, mine, q)))

  module _ (s prev hi : Ptr) (sp : Spliced h g s prev)
      (far : (b : Ptr) → key_at h b ≢ i → key_at h b < max_int → b ≢ s) where
    head-Waiting :
        (e : Entry) (es : List Entry)
        → e.key ≢ i
        → Above e.key es
        → key_at h e.desc ≡ e.key
        → Waiting h k e
        → Waiting g l e
    head-Waiting e es ne ab ke w =
        let low = Above-below e.key es ab in
        Waiting-other e ne low
          (sp.same_queue e.desc
            (far e.desc (λ q. ne (sym ke ∙ q)) (subst (λ x. x < max_int) (sym ke) low)))
          w

    Waits-same :
        (a b : Ptr) (es : List Entry)
        → Above a es
        → Absent i es
        → Descs h hi b es
        → Waits h k es
        → Waits g l es
    Waits-same a b [] ab out d w = tt
    Waits-same a b (e ∷ es) ab out d w = (
      head-Waiting e es out.0 ab.1 d.2 w.0,
      Waits-same e.key (after h e.desc) es ab.1 out.1 d.3 w.1,
    )

    pub Waits-enter :
        (a b : Ptr) (zs : List Ptr) (es : List Entry)
        → Above a es
        → Absent i es
        → Descs h hi b es
        → Waits h k es
        → Waiting g l (record { key = i; desc = s; procs = zs })
        → Waits g l (enter i s zs es)
    Waits-enter a b zs [] ab out d w new = (new, tt)
    Waits-enter a b zs (e ∷ es) ab out d w new = elim (Bool-cases (ltb e.key i)) [
      | inl lt ↦ rw lt (
        head-Waiting e es out.0 ab.1 d.2 w.0,
        Waits-enter e.key (after h e.desc) zs es ab.1 out.1 d.3 w.1 new,
      )
      | inr ge ↦ rw ge (new, Waits-same a b (e ∷ es) ab out d w)
    ]

    pub Waits-without :
        (a b : Ptr) (es : List Entry)
        → Above a es
        → Descs h hi b es
        → Waits h k es
        → Waits g l (without i es)
    Waits-without a b [] ab d w = tt
    Waits-without a b (e ∷ es) ab d w = elim (Bool-cases (e.key == i)) [
      | inl eq ↦ rw eq (
          Waits-same e.key (after h e.desc) es ab.1
            (Above-Absent i es (subst (λ x. Above x es) (eq_of_== e.key i eq) ab.1)) d.3 w.1)
      | inr ne ↦ rw ne (
        head-Waiting e es (ne_of_== e.key i ne) ab.1 d.2 w.0,
        Waits-without e.key (after h e.desc) es ab.1 d.3 w.1,
      )
    ]

-- No entry is that of `i` if what stands at its place is not.
pub place-Absent :
    (h : Store Semd) (hi i a b : Ptr) (es : List Entry)
    → Above a es
    → Descs h hi b es
    → key_at h (place hi i es) ≢ i
    → Absent i es
place-Absent h hi i a b [] ab d ne = tt
place-Absent h hi i a b (e ∷ es) ab d ne = elim (Bool-cases (ltb e.key i)) [
  | inl lt ↦ (
    (λ q. absurd (ground arith)),
    place-Absent h hi i e.key (after h e.desc) es ab.1 d.3 (λ q. ne (rw lt q)),
  )
  | inr ge ↦
      let other : e.key ≢ i = λ q. ne (rw ge (d.2 ∙ q)) in
      (other, Above-Absent i es (Above-lower i e.key es (ground (arith, other)) ab.1))
]

pub Above-update :
    (k i : Ptr) (zs : List Ptr) (es : List Entry) → Above k es → Above k (update i zs es)
Above-update k i zs [] b = b
Above-update k i zs (e ∷ es) b = (b.0, Above-update e.key i zs es b.1)

-- The queue of one semaphore changes, and that of no other.
pub IsTable-requeue :
    (m : Machine) (lo hi i q : Ptr) (zs : List Ptr) (es : List Entry) (ds : List Ptr)
    (g : Store Pcb) (h : Store Semd)
    → IsTable m lo hi es ds
    → live m.semds (place hi i es) ≡ true
    → key_at m.semds (place hi i es) ≡ i
    → i < max_int
    → h ≡ upd m.semds (place hi i es) (with_proc_q q)
    → IsAsl (record m { pcbs = g; semds = h }) lo hi (update i zs es)
    → IsTable (record m { pcbs = g; semds = h }) lo hi (update i zs es) ds
IsTable-requeue m lo hi i q zs es ds g h t ls ks high eq a =
    let s = place hi i es in
    let key : ((b : Ptr) → key_at h b ≡ key_at m.semds b) =
      λ b. ap (λ x. key_at x b) eq ∙ key_at-with_proc_q m.semds s q ls b in
    let new : has s ds ≡ false = elim (Bool-cases (has s ds)) [
      | inl mem ↦ absurd (omega (arith, t.idle s mem, ks, high))
      | inr n ↦ n
    ] in
    record {
      asl = a;
      free = record {
        chain =
            subst (λ x. Frees x m.semd_free_h ds) (sym eq)
              (Frees-upd m s ls (with_proc_q q) m.semd_free_h ds new t.free.chain);
        distinct = t.free.distinct;
      };
      lo_key = key lo ∙ t.lo_key;
      above = Above-update min_int i zs es t.above;
      apart = t.apart;
      idle = λ b mem. key b ∙ t.idle b mem;
      total = omega (arith, t.total, length-update i zs es);
    }
