-- ===== src/Pcb/Queue/Remove.antt =====
-- `removeProcQ` takes the head out, and `headProcQ` names it.
use patrick_landon_os.Base.{
  ◌≡◌, ◌≢◌, refl, sym, ◌∙◌, true, ◌==◌, List, [], ◌∷◌, has, ne_of_has, has-last_or, arith, ==_ne,
  ==_self, subst, Bool-cases, eq_of_==, inl, inr,
}
use patrick_landon_os.Machine.Memory.{Ptr, null, Store, live, live-upd, live-ne}
use patrick_landon_os.Types.{Pcb}
use patrick_landon_os.Machine.{Machine, ok, set_pcbs}
use patrick_landon_os.Machine.Lemmas.{load_pcb-ok, modify_pcb-ok}
use patrick_landon_os.Pcb.Queue.{remove_proc_q, head_proc_q}
use patrick_landon_os.Pcb.Queue.Links.{
  next, prev, Links, IsQueue, Relinked, next-with_next, Relinked-trans, Links-frame, tail-live,
  Lives-Relinked,
}
use patrick_landon_os.Pcb.Queue.Detach.{
  skipped, skipped₁, next-skipped, prev-skipped, Relinked-skipped, live-skipped, detached,
  next-detached, prev-detached, Relinked-detached, detach-ok,
}

-- What `removeProcQ` leaves behind when it takes `x` from the queue of `x` and `xs`.
pub record Removed (m : Machine) (t x : Ptr) (xs : List Ptr) : Type 0 where
  pub heap : Store Pcb
  pub tail : Ptr
  pub runs : remove_proc_q t m ≡ ok (x, tail) (set_pcbs heap m)
  pub queue : IsQueue heap tail xs
  pub frame : Relinked (x ∷ xs) m.pcbs heap
  pub next_null : next heap x ≡ null
  pub prev_null : prev heap x ≡ null

module _ (m : Machine) {t x : Ptr} where
  remove-one : IsQueue m.pcbs t (x ∷ []) → Removed m t x []
  unfolding remove_proc_q
  remove-one q = record {
    heap = detached m.pcbs x;
    tail = null;
    runs = rw (
      ← q.tail,
      ==_ne x null (live-ne m.pcbs x lx),
      load_pcb-ok m x lx,
      subst (λ a. next m.pcbs a ≡ x) (sym q.tail) q.links.0,
      ==_self x,
      detach-ok m.pcbs x lx m,
    );
    queue = record { tail = refl; links = tt; distinct = tt; lives = λ a i. cc };
    frame = Relinked-detached m.pcbs x lx (x ∷ []) (ground arith);
    next_null = next-detached m.pcbs x lx x ∙ rw (==_self x);
    prev_null = prev-detached m.pcbs x lx x ∙ rw (==_self x);
  }
    where
      lx : live m.pcbs x ≡ true
      lx = q.lives x (ground arith)

module _ (m : Machine) {t x y : Ptr} {ys : List Ptr} (q : IsQueue m.pcbs t (x ∷ y ∷ ys)) where
  lt : live m.pcbs t ≡ true
  lt = tail-live q

  lx : live m.pcbs x ≡ true
  lx = q.lives x (ground arith)

  ly : live m.pcbs y ≡ true
  ly = q.lives y (ground arith)

  t-mem : has t (y ∷ ys) ≡ true
  t-mem = subst (λ a. has a (y ∷ ys) ≡ true) q.tail (has-last_or y ys)

  t-ne-x : t ≢ x
  t-ne-x = ne_of_has t x (y ∷ ys) t-mem q.distinct.0

  sk : Store Pcb
  sk = skipped m.pcbs t y

  lx' : live sk x ≡ true
  unfolding sk
  lx' = live-skipped m.pcbs t y lt ly x ∙ lx

  remove-runs : remove_proc_q t m ≡ ok (x, t) (set_pcbs (detached sk x) m)
  unfolding remove_proc_q skipped sk
  remove-runs = rw (
    ==_ne t null (live-ne m.pcbs t lt),
    load_pcb-ok m t lt,
    q.links.0,
    ==_ne x t (λ e. t-ne-x (sym e)),
    load_pcb-ok m x lx,
    q.links.2.0,
    modify_pcb-ok m t lt,
    load_pcb-ok (set_pcbs (skipped₁ m.pcbs t y) m) t (simp live-upd lt),
    next-with_next m.pcbs t y lt t,
    ==_self t,
    modify_pcb-ok (set_pcbs (skipped₁ m.pcbs t y) m) y (simp live-upd ly),
    detach-ok sk x lx' m,
  )

  remove-Links : Links (detached sk x) t (y ∷ ys)
  unfolding sk
  remove-Links =
      let fwd = next-skipped m.pcbs t y lt ly in
      let bwd = prev-skipped m.pcbs t y lt ly in
      let fwd' = next-detached sk x lx' in
      let bwd' = prev-detached sk x lx' in
      (
        ground (arith, fwd' t, fwd t, t-ne-x),
        ground (arith, bwd' y, bwd y, q.distinct.0),
        Links-frame m.pcbs (detached sk x) y ys q.distinct.1 q.links.2.2
            (λ a i last.
              ground (arith, fwd' a, fwd a, ne_of_has a x (y ∷ ys) i q.distinct.0, last, q.tail))
            (λ a i. ground (
              arith,
              bwd' a,
              bwd a,
              ne_of_has a y ys i q.distinct.1.0,
              ne_of_has a x (y ∷ ys) (ground arith) q.distinct.0,
            )),
      )

  remove-more : Removed m t x (y ∷ ys)
  unfolding sk
  remove-more = record {
    heap = detached sk x;
    tail = t;
    runs = remove-runs;
    queue = record {
      tail = q.tail;
      links = remove-Links;
      distinct = q.distinct.1;
      lives = Lives-Relinked (y ∷ ys) frame (λ a i. q.lives a (ground arith));
    };
    frame = frame;
    next_null = next-detached sk x lx' x ∙ rw (==_self x);
    prev_null = prev-detached sk x lx' x ∙ rw (==_self x);
  }
    where
      frame : Relinked (x ∷ y ∷ ys) m.pcbs (detached sk x)
      frame =
          Relinked-trans
            (Relinked-skipped m.pcbs t y lt ly (x ∷ y ∷ ys) (ground (arith, t-mem)) (ground arith))
            (Relinked-detached sk x lx' (x ∷ y ∷ ys) (ground arith))

-- `removeProcQ` on a queue that is not empty: it returns the head, with both its links NULL; the
-- queue then holds the other blocks in their order, and memory changes in the links of these
-- blocks alone.
pub remove_proc_q-cons :
    (m : Machine) (t x : Ptr) (xs : List Ptr) → IsQueue m.pcbs t (x ∷ xs) → Removed m t x xs
remove_proc_q-cons m t x [] q = remove-one m q
remove_proc_q-cons m t x (y ∷ ys) q = remove-more m q

-- On an empty queue it returns NULL and changes nothing.
pub remove_proc_q-nil :
    (m : Machine) (t : Ptr) → IsQueue m.pcbs t [] → remove_proc_q t m ≡ ok (null, t) m
unfolding remove_proc_q
remove_proc_q-nil m t q = rw (← q.tail)

-- The first block of a list, NULL if there is none.
abbrev pub first : List Ptr → Ptr
first [] = null
first (x ∷ xs) = x

-- `headProcQ` returns the head, NULL for an empty queue, and changes nothing.
pub head_proc_q-first :
    (m : Machine) (t : Ptr) (xs : List Ptr)
    → IsQueue m.pcbs t xs
    → head_proc_q t m ≡ ok (first xs) m
unfolding head_proc_q
head_proc_q-first m t [] q = rw (← q.tail)
head_proc_q-first m t (x ∷ xs) q =
    rw (==_ne t null (live-ne m.pcbs t (tail-live q)), load_pcb-ok m t (tail-live q), q.links.0)
      (elim (Bool-cases (x == t)) [ inl e ↦ rw (e, eq_of_== x t e) | inr e ↦ rw e ])
