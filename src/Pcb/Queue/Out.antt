-- ===== src/Pcb/Queue/Out.antt =====
-- `outProcQ`: what it does for the tail, and for every other block.
use patrick_landon_os.Base.{
  ◌≡◌, ◌≢◌, refl, sym, ◌∙◌, true, false, ◌==◌, List, [], ◌∷◌, ◌++◌, has, Distinct, last_or,
  ne_of_has, has-last_or, arith, ==_ne, ==_self, Bool-cases, inl, inr, Distinct-init, has-append,
}
use patrick_landon_os.Machine.Memory.{Ptr, null, Store, live, live-upd, live-ne}
use patrick_landon_os.Types.{Pcb}
use patrick_landon_os.Machine.{Machine, ok, set_pcbs}
use patrick_landon_os.Machine.Lemmas.{load_pcb-ok, modify_pcb-ok}
use patrick_landon_os.Pcb.Queue.{out_proc_q, out_loop}
use patrick_landon_os.Pcb.Queue.Links.{
  next, prev, Links, IsQueue, Relinked, Relinked-trans, Links-frame, Links-split, tail-live,
  Lives-Relinked,
}
use patrick_landon_os.Pcb.Queue.Detach.{
  skipped, skipped₁, next-skipped, prev-skipped, Relinked-skipped, live-skipped, detached,
  next-detached, prev-detached, Relinked-detached, detach-ok,
}

-- What `outProcQ` leaves behind when it takes the tail `t` from behind `xs`.
pub record TakenOut (m : Machine) (t : Ptr) (xs : List Ptr) : Type 0 where
  pub heap : Store Pcb
  pub tail : Ptr
  pub runs : out_proc_q t t m ≡ ok (t, tail) (set_pcbs heap m)
  pub queue : IsQueue heap tail xs
  pub frame : Relinked (t ∷ xs) m.pcbs heap
  pub next_null : next heap t ≡ null
  pub prev_null : prev heap t ≡ null

module _ (m : Machine) {t : Ptr} where
  out-one : IsQueue m.pcbs t (t ∷ []) → TakenOut m t []
  unfolding out_proc_q
  out-one q = record {
    heap = detached m.pcbs t;
    tail = null;
    runs = rw (
      ==_ne t null (live-ne m.pcbs t lt),
      load_pcb-ok m t lt,
      q.links.0,
      ==_self t,
      detach-ok m.pcbs t lt m,
    );
    queue = record { tail = refl; links = tt; distinct = tt; lives = λ a i. cc };
    frame = Relinked-detached m.pcbs t lt (t ∷ []) (ground arith);
    next_null = next-detached m.pcbs t lt t ∙ rw (==_self t);
    prev_null = prev-detached m.pcbs t lt t ∙ rw (==_self t);
  }
    where
      lt : live m.pcbs t ≡ true
      lt = q.lives t (ground arith)

module _ (m : Machine) (t x : Ptr) (xs : List Ptr) (q : IsQueue m.pcbs t (x ∷ xs ++ t ∷ [])) where
  y : Ptr
  y = last_or x xs

  lt : live m.pcbs t ≡ true
  lt = q.lives t (ground (arith, has-append t (x ∷ xs) (t ∷ [])))

  lx : live m.pcbs x ≡ true
  lx = q.lives x (ground arith)

  y-mem : has y (x ∷ xs) ≡ true
  unfolding y
  y-mem = has-last_or x xs

  ly : live m.pcbs y ≡ true
  ly = q.lives y (ground (arith, y-mem, has-append y (x ∷ xs) (t ∷ [])))

  front : Distinct (x ∷ xs) × (has t (x ∷ xs) ≡ false)
  front = Distinct-init (x ∷ xs) t q.distinct

  parts : Links m.pcbs x xs × Links m.pcbs y (t ∷ [])
  unfolding y
  parts = Links-split m.pcbs x xs (t ∷ []) q.links.2

  y-ne-t : y ≢ t
  y-ne-t = ne_of_has y t (x ∷ xs) y-mem front.1

  x-ne-t : x ≢ t
  x-ne-t = ne_of_has x t (x ∷ xs) (ground arith) front.1

  sk : Store Pcb
  sk = skipped m.pcbs y x

  lt' : live sk t ≡ true
  unfolding sk
  lt' = live-skipped m.pcbs y x ly lx t ∙ lt

  prev-tail : prev sk t ≡ y
  unfolding sk
  prev-tail = ground (arith, prev-skipped m.pcbs y x ly lx t, x-ne-t, parts.1.1)

  out-runs : out_proc_q t t m ≡ ok (t, y) (set_pcbs (detached sk t) m)
  unfolding out_proc_q skipped sk
  out-runs = rw (
    ==_ne t null (live-ne m.pcbs t lt),
    load_pcb-ok m t lt,
    q.links.0,
    parts.1.1,
    ==_self t,
    ==_ne t x (λ e. x-ne-t (sym e)),
    modify_pcb-ok m y ly,
    modify_pcb-ok (set_pcbs (skipped₁ m.pcbs y x) m) x (simp live-upd lx),
    load_pcb-ok (set_pcbs sk m) t lt',
    prev-tail,
    detach-ok sk t lt' m,
  )

  out-Links : Links (detached sk t) y (x ∷ xs)
  unfolding sk y
  out-Links =
      let fwd = next-skipped m.pcbs y x ly lx in
      let bwd = prev-skipped m.pcbs y x ly lx in
      let fwd' = next-detached sk t lt' in
      let bwd' = prev-detached sk t lt' in
      (
        ground (arith, fwd' y, fwd y, y-ne-t),
        ground (arith, bwd' x, bwd x, x-ne-t),
        Links-frame m.pcbs (detached sk t) x xs front.0 parts.0
            (λ a i last. ground (arith, fwd' a, fwd a, ne_of_has a t (x ∷ xs) i front.1, last))
            (λ a i. ground (
              arith,
              bwd' a,
              bwd a,
              ne_of_has a x xs i front.0.0,
              ne_of_has a t (x ∷ xs) (ground arith) front.1,
            )),
      )

  out-more : TakenOut m t (x ∷ xs)
  unfolding sk y
  out-more = record {
    heap = detached sk t;
    tail = y;
    runs = out-runs;
    queue = record {
      tail = refl;
      links = out-Links;
      distinct = front.0;
      lives =
          Lives-Relinked (x ∷ xs) frame
            (λ a i. q.lives a (ground (arith, has-append a (x ∷ xs) (t ∷ []))));
    };
    frame = frame;
    next_null = next-detached sk t lt' t ∙ rw (==_self t);
    prev_null = prev-detached sk t lt' t ∙ rw (==_self t);
  }
    where
      frame : Relinked (t ∷ x ∷ xs) m.pcbs (detached sk t)
      frame =
          Relinked-trans
            (Relinked-skipped m.pcbs y x ly lx (t ∷ x ∷ xs) (ground (arith, y-mem)) (ground arith))
            (Relinked-detached sk t lt' (t ∷ x ∷ xs) (ground arith))

-- `outProcQ` of the block at the tail: it returns that block with both its links NULL, the queue
-- then holds the other blocks in their order, and memory changes in the links of these blocks alone.
pub out_proc_q-tail :
    (m : Machine) (t : Ptr) (xs : List Ptr) → IsQueue m.pcbs t (xs ++ t ∷ []) → TakenOut m t xs
out_proc_q-tail m t [] q = out-one m q
out_proc_q-tail m t (x ∷ xs) q = out-more m t x xs q

-- `outProcQ` of any block but the tail returns NULL and leaves the queue as it was, also where the
-- block is in the queue: the search starts at the tail and takes the tail for the end.
pub out_proc_q-not_tail :
    (m : Machine) (t p : Ptr) (xs : List Ptr)
    → IsQueue m.pcbs t xs
    → p ≢ t
    → out_proc_q t p m ≡ ok (null, t) m
unfolding out_proc_q out_loop
out_proc_q-not_tail m t p [] q ne = rw (← q.tail)
out_proc_q-not_tail m t p (x ∷ xs) q ne = elim (Bool-cases (p == null)) [
  | inl e ↦ rw (==_ne t null (live-ne m.pcbs t (tail-live q)), e)
  | inr e ↦ rw (
    ==_ne t null (live-ne m.pcbs t (tail-live q)),
    e,
    load_pcb-ok m t (tail-live q),
    ==_ne t p (λ d. ne (sym d)),
    ==_self t,
  )
]
