-- ===== src/Pcb/Tree/Insert.antt =====
-- `insertChild` makes a process the first child of its parent.
use patrick_landon_os.Base.{
  ◌≡◌, ◌≢◌, sym, ◌∙◌, true, false, ◌==◌, if◌then◌else◌, List, [], ◌∷◌, has, ne_of_has, arith, ==_ne,
  subst, Bool-cases, inl, inr,
}
use patrick_landon_os.Machine.Memory.{Ptr, null, Store, live, get, upd, live-upd, live-ne}
use patrick_landon_os.Machine.Frame.{Touched-trans, Touched-refl}
use patrick_landon_os.Types.{Pcb, blank_pcb}
use patrick_landon_os.Machine.{Machine, ok, set_pcbs}
use patrick_landon_os.Machine.Lemmas.{load_pcb-ok, modify_pcb-ok}
use patrick_landon_os.Pcb.Tree.{with_child, with_sib, with_prnt, insert_child}
use patrick_landon_os.Pcb.Tree.Family.{
  child, sib, prnt, Sibs, IsFamily, Grafted, get-with_child, get-with_sib, get-with_prnt,
  Grafted-with_child, Grafted-with_sib, Grafted-with_prnt, Sibs-same,
}

-- The assignments of both cases: the sibling is set only where the parent has a child.
abbrev grafted₁ : Store Pcb → (q p : Ptr) → Store Pcb
grafted₁ h q p = if child h q == null then h else upd h p (with_sib (child h q))

abbrev grafted₂ : Store Pcb → (q p : Ptr) → Store Pcb
grafted₂ h q p = upd (grafted₁ h q p) q (with_child p)

unfoldable pub grafted : Store Pcb → (q p : Ptr) → Store Pcb
grafted h q p = upd (grafted₂ h q p) p (with_prnt q)

module _ (h : Store Pcb) (q p : Ptr) (lq : live h q ≡ true) (lp : live h p ≡ true)
    (ne : p ≢ q) where
  live₁ : (a : Ptr) → live (grafted₁ h q p) a ≡ live h a
  live₁ a = ground (arith, live-upd h p (with_sib (child h q)) a)

  live₂ : (a : Ptr) → live (grafted₂ h q p) a ≡ live h a
  live₂ a = live-upd (grafted₁ h q p) q (with_child p) a ∙ live₁ a

  get-grafted :
      (a : Ptr)
      → get blank_pcb (grafted h q p) a ≡ (
          if a == p
          then record (get blank_pcb h p) {
            p_prnt = q;
            p_sib = (if child h q == null then sib h p else child h q);
          }
          else if a == q
          then with_child p (get blank_pcb h q)
          else get blank_pcb h a)
  unfolding grafted
  get-grafted a = ground (
    arith,
    get-with_prnt (grafted₂ h q p) p q (live₂ p ∙ lp) a,
    get-with_child (grafted₁ h q p) q p (live₁ q ∙ lq) a,
    get-with_sib h p (child h q) lp a,
  )

  Grafted-grafted :
      (ys : List Ptr) → has p ys ≡ true → has q ys ≡ true → Grafted ys h (grafted h q p)
  unfolding grafted
  Grafted-grafted ys ip iq = Touched-trans first (
      Touched-trans (Grafted-with_child (grafted₁ h q p) q p (live₁ q ∙ lq) iq)
        (Grafted-with_prnt (grafted₂ h q p) p q (live₂ p ∙ lp) ip))
    where
      first : Grafted ys h (grafted₁ h q p)
      first = elim (Bool-cases (child h q == null)) [
        | inl e ↦ rw e (Touched-refl h)
        | inr e ↦ rw e (Grafted-with_sib h p (child h q) lp ip)
      ]

module _ (m : Machine) (q p : Ptr) (lq : live m.pcbs q ≡ true) (lp : live m.pcbs p ≡ true)
    (ne : p ≢ q) where
  insert-runs : insert_child q p m ≡ ok tt (set_pcbs (grafted m.pcbs q p) m)
  unfolding insert_child grafted
  insert-runs = elim (Bool-cases (child m.pcbs q == null)) [
    | inl e ↦ rw (
      ==_ne q null (live-ne m.pcbs q lq),
      load_pcb-ok m q lq,
      e,
      modify_pcb-ok m q lq,
      modify_pcb-ok (set_pcbs (upd m.pcbs q (with_child p)) m) p (simp live-upd lp),
    )
    | inr e ↦ rw (
      ==_ne q null (live-ne m.pcbs q lq),
      load_pcb-ok m q lq,
      e,
      modify_pcb-ok m p lp,
      modify_pcb-ok (set_pcbs (upd m.pcbs p (with_sib (child m.pcbs q))) m) q (simp live-upd lq),
      modify_pcb-ok (set_pcbs (upd (upd m.pcbs p (with_sib (child m.pcbs q))) q (with_child p)) m) p
          (simp live-upd lp),
    )
  ]

-- What `insertChild` leaves behind when it gives `q`, with the children `cs`, the new child `p`.
pub record Adopted (m : Machine) (q p : Ptr) (cs : List Ptr) : Type 0 where
  pub heap : Store Pcb
  pub runs : insert_child q p m ≡ ok tt (set_pcbs heap m)
  pub family : IsFamily heap q (p ∷ cs)
  pub frame : Grafted (p ∷ q ∷ []) m.pcbs heap

-- `insertChild` of a process that is in memory, is not the parent or among its children, and has no
-- sibling: it returns, the process is then the first child and the old children follow in their
-- order, and memory changes in the tree fields of parent and child alone.
pub insert_child-cons :
    (m : Machine) (q p : Ptr) (cs : List Ptr)
    → IsFamily m.pcbs q cs
    → live m.pcbs p ≡ true
    → has p (q ∷ cs) ≡ false
    → sib m.pcbs p ≡ null
    → Adopted m q p cs
insert_child-cons m q p cs f lp new alone = record {
  heap = grafted m.pcbs q p;
  runs = insert-runs m q p f.alive lp ne;
  family = record {
    alive = frame.same_live q ∙ f.alive;
    sibs = (
      ground (arith, at q, ne),
      frame.same_live p ∙ lp,
      ground (arith, at p),
      subst (λ n. Sibs (grafted m.pcbs q p) q n cs) (sym next)
          (Sibs-same m.pcbs (grafted m.pcbs q p) q (child m.pcbs q) cs same frame.same_live f.sibs),
    );
    distinct = (ground arith, f.distinct);
    proper = ground (arith, f.proper);
  };
  frame = frame;
}
  where
    ne : p ≢ q
    ne = ground arith

    at :
        (a : Ptr)
        → get blank_pcb (grafted m.pcbs q p) a ≡ (
            if a == p
            then record (get blank_pcb m.pcbs p) {
              p_prnt = q;
              p_sib = (if child m.pcbs q == null then sib m.pcbs p else child m.pcbs q);
            }
            else if a == q
            then with_child p (get blank_pcb m.pcbs q)
            else get blank_pcb m.pcbs a)
    at = get-grafted m.pcbs q p f.alive lp ne

    frame : Grafted (p ∷ q ∷ []) m.pcbs (grafted m.pcbs q p)
    frame = Grafted-grafted m.pcbs q p f.alive lp ne (p ∷ q ∷ []) (ground arith) (ground arith)

    next : sib (grafted m.pcbs q p) p ≡ child m.pcbs q
    next = ground (arith, at p)

    same :
        (x : Ptr)
        → has x cs ≡ true
        → (prnt (grafted m.pcbs q p) x ≡ prnt m.pcbs x)
          × (sib (grafted m.pcbs q p) x ≡ sib m.pcbs x)
    same x i = ground (arith, at x, ne_of_has x q cs i f.proper, ne_of_has x p cs i)

-- Under a parent with no child, the new child keeps the sibling that it had before.
pub insert_child-stale :
    (m : Machine) (q p : Ptr)
    → IsFamily m.pcbs q []
    → live m.pcbs p ≡ true
    → p ≢ q
    → (insert_child q p m ≡ ok tt (set_pcbs (grafted m.pcbs q p) m))
      × (child (grafted m.pcbs q p) q ≡ p)
      × (sib (grafted m.pcbs q p) p ≡ sib m.pcbs p)
insert_child-stale m q p f lp ne = (
  insert-runs m q p f.alive lp ne,
  ground (arith, get-grafted m.pcbs q p f.alive lp ne q, ne),
  ground (arith, get-grafted m.pcbs q p f.alive lp ne p, f.sibs),
)
