-- ===== src/Pcb/Queue/Insert.antt =====
-- `insertProcQ` puts a block behind the tail.
use patrick_landon_os.Base.{
  ◌≡◌, ◌≢◌, refl, sym, ◌∙◌, true, false, ◌==◌, if◌then◌else◌, List, [], ◌∷◌, ◌++◌, has, last_or,
  ne_of_has, last_or-append, Distinct-append_one, arith, ==_ne, ==_self,
}
use patrick_landon_os.Machine.Memory.{Ptr, null, Store, live, upd, live-upd, live-ne}
use patrick_landon_os.Types.{Pcb}
use patrick_landon_os.Machine.{Machine, ok, set_pcbs}
use patrick_landon_os.Machine.Lemmas.{load_pcb-ok, modify_pcb-ok}
use patrick_landon_os.Pcb.Queue.{with_next, with_prev, insert_proc_q}
use patrick_landon_os.Pcb.Queue.Links.{
  next, prev, Links, IsQueue, Relinked, next-with_next, prev-with_next, next-with_prev,
  prev-with_prev, Relinked-with_next, Relinked-with_prev, Relinked-trans, Links-frame, Links-append,
  tail-mem, tail-live, Lives-append_one, Lives-Relinked,
}

-- What a run of a queue operation leaves behind.
pub record Inserted (m : Machine) (t p : Ptr) (xs : List Ptr) : Type 0 where
  pub heap : Store Pcb
  pub runs : insert_proc_q t p m ≡ ok p (set_pcbs heap m)
  pub queue : IsQueue heap p (xs ++ p ∷ [])
  pub frame : Relinked (p ∷ xs) m.pcbs heap

-- The four assignments to a queue that is not empty.
abbrev linked₁ : Store Pcb → (p x : Ptr) → Store Pcb
linked₁ h p x = upd h p (with_next x)

abbrev linked₂ : Store Pcb → (t p x : Ptr) → Store Pcb
linked₂ h t p x = upd (linked₁ h p x) t (with_next p)

abbrev linked₃ : Store Pcb → (t p x : Ptr) → Store Pcb
linked₃ h t p x = upd (linked₂ h t p x) p (with_prev t)

linked : Store Pcb → (t p x : Ptr) → Store Pcb
linked h t p x = upd (linked₃ h t p x) x (with_prev p)

module _ (h : Store Pcb) (t p x : Ptr) (lt : live h t ≡ true) (lp : live h p ≡ true)
    (lx : live h x ≡ true) where
  next-linked :
      (a : Ptr) → next (linked h t p x) a ≡ (if a == t then p else if a == p then x else next h a)
  unfolding linked
  next-linked a = ground (
    arith,
    next-with_prev (linked₃ h t p x) x p (simp live-upd lx) a,
    next-with_prev (linked₂ h t p x) p t (simp live-upd lp) a,
    next-with_next (linked₁ h p x) t p (simp live-upd lt) a,
    next-with_next h p x lp a,
  )

  prev-linked :
      (a : Ptr) → prev (linked h t p x) a ≡ (if a == x then p else if a == p then t else prev h a)
  unfolding linked
  prev-linked a = ground (
    arith,
    prev-with_prev (linked₃ h t p x) x p (simp live-upd lx) a,
    prev-with_prev (linked₂ h t p x) p t (simp live-upd lp) a,
    prev-with_next (linked₁ h p x) t p (simp live-upd lt) a,
    prev-with_next h p x lp a,
  )

  linked-Relinked :
      (ys : List Ptr)
      → has t ys ≡ true
      → has p ys ≡ true
      → has x ys ≡ true
      → Relinked ys h (linked h t p x)
  unfolding linked
  linked-Relinked ys it ip ix = Relinked-trans (Relinked-with_next h p x lp ys ip) (
      Relinked-trans (Relinked-with_next _ t p (simp live-upd lt) ys it) (
        Relinked-trans (Relinked-with_prev _ p t (simp live-upd lp) ys ip)
          (Relinked-with_prev _ x p (simp live-upd lx) ys ix)))

module _ (m : Machine) (p : Ptr) (lp : live m.pcbs p ≡ true) where
  insert-nil : {t : Ptr} → IsQueue m.pcbs t [] → Inserted m t p []
  unfolding insert_proc_q
  insert-nil {t} q = record {
    heap = upd h p (with_prev p);
    runs = rw (← q.tail, modify_pcb-ok m p lp, modify_pcb-ok (set_pcbs h m) p lp');
    queue = record {
      tail = refl;
      links = (
        next-with_prev h p p lp' p ∙ next-with_next m.pcbs p p lp p ∙ rw (==_self p),
        prev-with_prev h p p lp' p ∙ rw (==_self p),
        tt,
      );
      distinct = (refl, tt);
      lives = Lives-append_one _ [] p (λ a i. cc) (simp live-upd lp);
    };
    frame =
        Relinked-trans (Relinked-with_next m.pcbs p p lp (p ∷ []) (ground arith))
          (Relinked-with_prev h p p lp' (p ∷ []) (ground arith));
  }
    where
      h : Store Pcb
      h = upd m.pcbs p (with_next p)

      lp' : live h p ≡ true
      lp' = simp live-upd lp

  module _ {t x : Ptr} {xs : List Ptr} (q : IsQueue m.pcbs t (x ∷ xs))
      (new : has p (x ∷ xs) ≡ false) where
    t-ne-null : t ≢ null
    t-ne-null = live-ne m.pcbs t (tail-live q)

    p-ne-t : p ≢ t
    p-ne-t e = ne_of_has t p (x ∷ xs) (tail-mem q) new (sym e)

    -- `p->p_next` is still the old head when it is read for the last assignment.
    next-old_head : next (linked₃ m.pcbs t p x) p ≡ x
    next-old_head = ground (
      arith,
      next-with_prev (linked₂ m.pcbs t p x) p t (simp live-upd lp) p,
      next-with_next (linked₁ m.pcbs p x) t p (simp live-upd (tail-live q)) p,
      next-with_next m.pcbs p x lp p,
      p-ne-t,
    )

    insert-runs : insert_proc_q t p m ≡ ok p (set_pcbs (linked m.pcbs t p x) m)
    unfolding insert_proc_q linked
    insert-runs = rw (
      ==_ne t null t-ne-null,
      load_pcb-ok m t (tail-live q),
      q.links.0,
      modify_pcb-ok m p lp,
      modify_pcb-ok (set_pcbs (linked₁ m.pcbs p x) m) t (simp live-upd (tail-live q)),
      modify_pcb-ok (set_pcbs (linked₂ m.pcbs t p x) m) p (simp live-upd lp),
      load_pcb-ok (set_pcbs (linked₃ m.pcbs t p x) m) p (simp live-upd lp),
      next-old_head,
      modify_pcb-ok (set_pcbs (linked₃ m.pcbs t p x) m) x
          (simp live-upd (q.lives x (ground arith))),
    )

    insert-Links : Links (linked m.pcbs t p x) p (x ∷ xs ++ p ∷ [])
    insert-Links =
        let lx : live m.pcbs x ≡ true = q.lives x (ground arith) in
        let fwd = next-linked m.pcbs t p x (tail-live q) lp lx in
        let bwd = prev-linked m.pcbs t p x (tail-live q) lp lx in
        let same = Links-frame m.pcbs (linked m.pcbs t p x) x xs q.distinct q.links.2 in
        (
          ground (arith, fwd p, p-ne-t),
          ground (arith, bwd x),
          Links-append (linked m.pcbs t p x) x xs (p ∷ [])
              (same (λ a i last. ground (arith, fwd a, ne_of_has a p (x ∷ xs) i new, last, q.tail))
                (λ a i. ground (arith, bwd a, ne_of_has a p xs i, ne_of_has a x xs i q.distinct.0)))
              (ground (arith, fwd (last_or x xs), q.tail), ground (arith, bwd p, q.tail), tt),
        )

    -- Behind the tail of a queue: the block becomes the last.
    insert-cons : Inserted m t p (x ∷ xs)
    insert-cons = record {
      heap = linked m.pcbs t p x;
      runs = insert-runs;
      queue = record {
        tail = last_or-append null (x ∷ xs) p [];
        links = insert-Links;
        distinct = Distinct-append_one (x ∷ xs) p q.distinct new;
        lives =
            Lives-append_one _ (x ∷ xs) p (Lives-Relinked (x ∷ xs) frame q.lives)
              (frame.same_live p ∙ lp);
      };
      frame = frame;
    }
      where
        frame : Relinked (p ∷ x ∷ xs) m.pcbs (linked m.pcbs t p x)
        frame =
            linked-Relinked m.pcbs t p x (tail-live q) lp (q.lives x (ground arith)) (p ∷ x ∷ xs)
              (ground (arith, tail-mem q)) (ground arith) (ground arith)

-- `insertProcQ` of a block that is in memory and not in the queue: it returns, the queue then holds
-- the old blocks in the old order with the new one last, its tail pointer is the new block, and
-- memory changes in the links of these blocks alone.
pub insert_proc_q-append :
    (m : Machine) (t p : Ptr) (xs : List Ptr)
    → IsQueue m.pcbs t xs
    → live m.pcbs p ≡ true
    → has p xs ≡ false
    → Inserted m t p xs
insert_proc_q-append m t p [] q lp new = insert-nil m p lp q
insert_proc_q-append m t p (x ∷ xs) q lp new = insert-cons m p lp q new
