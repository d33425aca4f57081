-- ===== src/Pcb/Tree/Out.antt =====
-- `outChild` takes any child from its parent, searching the siblings before it.
use patrick_landon_os.Base.{
  ◌<◌, ◌≡◌, ◌≢◌, sym, ◌∙◌, true, false, List, [], ◌∷◌, ◌++◌, has, Distinct, ne_of_has, arith, ==_ne,
  ==_self, subst, last_or, length, has-append, has-last_or, Distinct-middle, Bool-cases,
  if◌then◌else◌, ◌==◌, inl, eq_of_==, inr, ◌≤◌,
}
use patrick_landon_os.Machine.Memory.{Ptr, null, Store, live, upd, get, live-upd, live-ne}
use patrick_landon_os.Types.{Pcb, blank_pcb}
use patrick_landon_os.Machine.{Machine, ok, set_pcbs}
use patrick_landon_os.Machine.Lemmas.{load_pcb-ok, modify_pcb-ok}
use patrick_landon_os.Pcb.Tree.{out_child, max_proc, with_sib, with_prnt, with_child}
use patrick_landon_os.Pcb.Tree.Family.{
  sib, prnt, Sibs, IsFamily, Grafted, child, Grafted-with_sib, get-with_prnt, Grafted-with_prnt,
  get-with_sib,
}
use patrick_landon_os.Machine.Frame.{Touched-trans, Touched-weaken}
use patrick_landon_os.Pcb.Tree.Remove.{orphaned, orphaned-IsFamily, get-orphaned, Grafted-orphaned}
use patrick_landon_os.Pcb.Tree.Elder.{
  Within, Sibs-Within, elder_loop-last_or, last_or-alive, Sibs-skip,
}

-- What `outChild` leaves behind when it takes `p` from `q`, whose other children are `cs`.
pub record Outcast (m : Machine) (q p : Ptr) (cs : List Ptr) : Type 0 where
  pub heap : Store Pcb
  pub runs : out_child p m ≡ ok p (set_pcbs heap m)
  pub family : IsFamily heap q cs
  pub prnt_null : prnt heap p ≡ null
  pub frame : Grafted (q ∷ p ∷ cs) m.pcbs heap

module _ (m : Machine) (q p : Ptr) (post : List Ptr) (f : IsFamily m.pcbs q (p ∷ post)) where
  first-runs : prnt m.pcbs p ≡ q → out_child p m ≡ ok p (set_pcbs (orphaned m.pcbs q p) m)
  unfolding out_child orphaned
  first-runs e = elim (Bool-cases (sib m.pcbs p == null)) [
    | inl none_left ↦ rw (
      load_pcb-ok m p f.sibs.1,
      e,
      ==_ne q null (live-ne m.pcbs q f.alive),
      load_pcb-ok m q f.alive,
      f.sibs.0,
      ==_self p,
      none_left,
      eq_of_== (sib m.pcbs p) null none_left,
      modify_pcb-ok m q f.alive,
      modify_pcb-ok (set_pcbs (upd m.pcbs q (with_child null)) m) p (simp live-upd f.sibs.1),
    )
    | inr more ↦ rw (
      load_pcb-ok m p f.sibs.1,
      e,
      ==_ne q null (live-ne m.pcbs q f.alive),
      load_pcb-ok m q f.alive,
      f.sibs.0,
      ==_self p,
      more,
      modify_pcb-ok m q f.alive,
      modify_pcb-ok (set_pcbs (upd m.pcbs q (with_child (sib m.pcbs p))) m) p
          (simp live-upd f.sibs.1),
    )
  ]

-- The sibling `e` before `p` points past it.
bypassed : Store Pcb → (e p : Ptr) → Store Pcb
bypassed h e p = upd (upd h e (with_sib (sib h p))) p (with_prnt null)

module _ (h : Store Pcb) (e p : Ptr) (le : live h e ≡ true) (lp : live h p ≡ true) where
  get-bypassed :
      (a : Ptr)
      → e ≢ p
      → get blank_pcb (bypassed h e p) a ≡ (
          if a == p
          then with_prnt null (get blank_pcb h p)
          else if a == e
          then with_sib (sib h p) (get blank_pcb h e)
          else get blank_pcb h a)
  unfolding bypassed
  get-bypassed a ne = ground (
    arith,
    get-with_prnt (upd h e (with_sib (sib h p))) p null (simp live-upd lp) a,
    get-with_sib h e (sib h p) le a,
  )

  Grafted-bypassed :
      (ys : List Ptr) → has e ys ≡ true → has p ys ≡ true → Grafted ys h (bypassed h e p)
  unfolding bypassed
  Grafted-bypassed ys ie ip =
      Touched-trans (Grafted-with_sib h e (sib h p) le ie)
        (Grafted-with_prnt (upd h e (with_sib (sib h p))) p null (simp live-upd lp) ip)

module _ (m : Machine) (q p a : Ptr) (xs post : List Ptr)
    (f : IsFamily m.pcbs q (a ∷ xs ++ p ∷ post)) where
  w : Within m.pcbs q p post
  w = Sibs-Within m.pcbs q (child m.pcbs q) (a ∷ xs) p post f.sibs

  others : Distinct (a ∷ xs ++ post) × (has p (a ∷ xs ++ post) ≡ false)
  others = Distinct-middle (a ∷ xs) p post f.distinct

  p-new : has p (a ∷ xs) ≡ false
  p-new = ground (arith, others, has-append p xs post)

  elder : Ptr
  elder = last_or a xs

  elder-mem : has elder (a ∷ xs) ≡ true
  unfolding elder
  elder-mem = has-last_or a xs

  elder-ne-p : elder ≢ p
  elder-ne-p = ne_of_has elder p (a ∷ xs) elder-mem p-new

  elder-alive : live m.pcbs elder ≡ true
  unfolding elder
  elder-alive = last_or-alive m.pcbs q (child m.pcbs q) a xs (p ∷ post) f.sibs

  later-runs : length xs < max_proc → out_child p m ≡ ok p (set_pcbs (bypassed m.pcbs elder p) m)
  unfolding out_child bypassed elder
  later-runs few = elim (Bool-cases (sib m.pcbs p == null)) [
    | inl none_left ↦ rw (
      load_pcb-ok m p w.alive,
      w.parent,
      ==_ne q null (live-ne m.pcbs q f.alive),
      load_pcb-ok m q f.alive,
      f.sibs.0,
      ==_ne a p (ne_of_has a p (a ∷ xs) (ground arith) p-new),
      elder_loop-last_or m q p a xs post max_proc f.sibs (ground (arith, p-new)) few,
      none_left,
      eq_of_== (sib m.pcbs p) null none_left,
      modify_pcb-ok m elder elder-alive,
      modify_pcb-ok (set_pcbs (upd m.pcbs elder (with_sib null)) m) p (simp live-upd w.alive),
    )
    | inr more ↦ rw (
      load_pcb-ok m p w.alive,
      w.parent,
      ==_ne q null (live-ne m.pcbs q f.alive),
      load_pcb-ok m q f.alive,
      f.sibs.0,
      ==_ne a p (ne_of_has a p (a ∷ xs) (ground arith) p-new),
      elder_loop-last_or m q p a xs post max_proc f.sibs (ground (arith, p-new)) few,
      more,
      modify_pcb-ok m elder elder-alive,
      modify_pcb-ok (set_pcbs (upd m.pcbs elder (with_sib (sib m.pcbs p))) m) p
          (simp live-upd w.alive),
    )
  ]

  later-IsFamily : IsFamily (bypassed m.pcbs elder p) q (a ∷ xs ++ post)
  unfolding elder
  later-IsFamily = record {
    alive = g.same_live q ∙ f.alive;
    sibs =
        subst (λ n. Sibs (bypassed m.pcbs elder p) q n (a ∷ xs ++ post))
          (sym (ground (arith, at q)))
          (Sibs-skip m.pcbs (bypassed m.pcbs elder p) q p a xs post f.sibs others.0 g.same_live
            (λ x i. ground (arith, at x, ne_of_has x p (a ∷ xs ++ post) i others.1))
            (λ x i last. ground (arith, at x, ne_of_has x p (a ∷ xs ++ post) i others.1, last))
            (ground (arith, at elder, elder-ne-p)));
    distinct = others.0;
    proper = ground (arith, f.proper, has-append q xs (p ∷ post), has-append q xs post);
  }
    where
      at :
          (x : Ptr)
          → get blank_pcb (bypassed m.pcbs elder p) x ≡ (
              if x == p
              then with_prnt null (get blank_pcb m.pcbs p)
              else if x == elder
              then with_sib (sib m.pcbs p) (get blank_pcb m.pcbs elder)
              else get blank_pcb m.pcbs x)
      at x = get-bypassed m.pcbs elder p elder-alive w.alive x elder-ne-p

      g : Grafted (elder ∷ p ∷ []) m.pcbs (bypassed m.pcbs elder p)
      g =
          Grafted-bypassed m.pcbs elder p elder-alive w.alive (elder ∷ p ∷ []) (ground arith)
            (ground arith)

  later : length xs < max_proc → Outcast m q p (a ∷ xs ++ post)
  unfolding elder
  later few = record {
    heap = bypassed m.pcbs elder p;
    runs = later-runs few;
    family = later-IsFamily;
    prnt_null = ground (arith, get-bypassed m.pcbs elder p elder-alive w.alive p elder-ne-p);
    frame =
        Grafted-bypassed m.pcbs elder p elder-alive w.alive (q ∷ p ∷ a ∷ xs ++ post)
          (ground (arith, elder-mem, has-append elder (a ∷ xs) post)) (ground arith);
  }

-- `outChild` of a process that has a parent with at most `MAXPROC` children before it: it returns the
-- process, without a parent now; the others are the parent's children in their order, and memory
-- changes in the tree fields of the parent and its children alone.
pub out_child-append :
    (m : Machine) (q p : Ptr) (pre post : List Ptr)
    → IsFamily m.pcbs q (pre ++ p ∷ post)
    → length pre ≤ max_proc
    → Outcast m q p (pre ++ post)
out_child-append m q p [] post f few = record {
  heap = orphaned m.pcbs q p;
  runs = first-runs m q p post f f.sibs.2;
  family = orphaned-IsFamily m.pcbs q p post f;
  prnt_null = ground (arith, get-orphaned m.pcbs q p f.alive f.sibs.1 p, f.proper);
  frame = Touched-weaken (λ a o. ground arith) (Grafted-orphaned m.pcbs q p f.alive f.sibs.1);
}
out_child-append m q p (a ∷ xs) post f few = later m q p a xs post f (omega arith)

-- `outChild` of a process with no parent returns NULL and changes nothing.
pub out_child-root :
    (m : Machine) (p : Ptr)
    → live m.pcbs p ≡ true
    → prnt m.pcbs p ≡ null
    → out_child p m ≡ ok null m
unfolding out_child
out_child-root m p lp e = rw (load_pcb-ok m p lp, e)
