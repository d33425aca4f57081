-- ===== src/Pcb/Tree/Remove.antt =====
-- `removeChild` takes the first child from its parent.
use patrick_landon_os.Base.{
  ◌≡◌, ◌≢◌, ◌∙◌, true, ◌==◌, if◌then◌else◌, List, [], ◌∷◌, has, ne_of_has, arith, ==_ne, subst,
  Bool-cases, eq_of_==, inl, inr,
}
use patrick_landon_os.Machine.Memory.{Ptr, null, Store, live, get, upd, live-upd, live-ne}
use patrick_landon_os.Machine.Frame.{Touched-trans}
use patrick_landon_os.Types.{Pcb, blank_pcb}
use patrick_landon_os.Machine.{Machine, ok, set_pcbs}
use patrick_landon_os.Machine.Lemmas.{load_pcb-ok, modify_pcb-ok}
use patrick_landon_os.Pcb.Tree.{with_child, with_prnt, remove_child}
use patrick_landon_os.Pcb.Tree.Family.{
  sib, prnt, Sibs, IsFamily, Grafted, get-with_child, get-with_prnt, Grafted-with_child,
  Grafted-with_prnt, Sibs-same,
}

-- The first child `c` of `p` gives way to its sibling.
unfoldable pub orphaned : Store Pcb → (p c : Ptr) → Store Pcb
orphaned h p c = upd (upd h p (with_child (sib h c))) c (with_prnt null)

module _ (h : Store Pcb) (p c : Ptr) (lp : live h p ≡ true) (lc : live h c ≡ true) where
  pub get-orphaned :
      (a : Ptr)
      → p ≢ c
      → get blank_pcb (orphaned h p c) a ≡ (
          if a == c
          then with_prnt null (get blank_pcb h c)
          else if a == p
          then with_child (sib h c) (get blank_pcb h p)
          else get blank_pcb h a)
  unfolding orphaned
  get-orphaned a ne = ground (
    arith,
    get-with_prnt (upd h p (with_child (sib h c))) c null (simp live-upd lc) a,
    get-with_child h p (sib h c) lp a,
  )

  pub Grafted-orphaned : Grafted (p ∷ c ∷ []) h (orphaned h p c)
  unfolding orphaned
  Grafted-orphaned =
      Touched-trans (Grafted-with_child h p (sib h c) lp (ground arith)) (
        Grafted-with_prnt (upd h p (with_child (sib h c))) c null (simp live-upd lc) (ground arith))

-- What `removeChild` leaves behind when it takes `c` from `p`, whose other children are `cs`.
pub record Orphaned (m : Machine) (p c : Ptr) (cs : List Ptr) : Type 0 where
  pub heap : Store Pcb
  pub runs : remove_child p m ≡ ok c (set_pcbs heap m)
  pub family : IsFamily heap p cs
  pub frame : Grafted (p ∷ c ∷ []) m.pcbs heap
  pub prnt_null : prnt heap c ≡ null
  pub sib_kept : sib heap c ≡ sib m.pcbs c

module _ (h : Store Pcb) (p c : Ptr) (cs : List Ptr) (f : IsFamily h p (c ∷ cs)) where
  p-ne-c : p ≢ c
  p-ne-c = ground (arith, f.proper)

  pub orphaned-IsFamily : IsFamily (orphaned h p c) p cs
  orphaned-IsFamily = record {
    alive = g.same_live p ∙ f.alive;
    sibs =
        subst (λ n. Sibs (orphaned h p c) p n cs) (ground (arith, at p p-ne-c, p-ne-c))
          (Sibs-same h (orphaned h p c) p (sib h c) cs same g.same_live f.sibs.3);
    distinct = f.distinct.1;
    proper = ground (arith, f.proper);
  }
    where
      at :
          (a : Ptr)
          → p ≢ c
          → get blank_pcb (orphaned h p c) a ≡ (
              if a == c
              then with_prnt null (get blank_pcb h c)
              else if a == p
              then with_child (sib h c) (get blank_pcb h p)
              else get blank_pcb h a)
      at = get-orphaned h p c f.alive f.sibs.1

      g : Grafted (p ∷ c ∷ []) h (orphaned h p c)
      g = Grafted-orphaned h p c f.alive f.sibs.1

      same :
          (x : Ptr)
          → has x cs ≡ true
          → (prnt (orphaned h p c) x ≡ prnt h x) × (sib (orphaned h p c) x ≡ sib h x)
      same x i = ground (arith, at x p-ne-c, ne_of_has x c cs i f.distinct.0)

module _ (m : Machine) (p c : Ptr) (cs : List Ptr) (f : IsFamily m.pcbs p (c ∷ cs)) where
  remove-runs : remove_child p m ≡ ok c (set_pcbs (orphaned m.pcbs p c) m)
  unfolding remove_child orphaned
  remove-runs = elim (Bool-cases (sib m.pcbs c == null)) [
    | inl e ↦ rw (
      load_pcb-ok m p f.alive,
      f.sibs.0,
      ==_ne c null (live-ne m.pcbs c f.sibs.1),
      load_pcb-ok m c f.sibs.1,
      e,
      eq_of_== (sib m.pcbs c) null e,
      modify_pcb-ok m p f.alive,
      modify_pcb-ok (set_pcbs (upd m.pcbs p (with_child null)) m) c (simp live-upd f.sibs.1),
    )
    | inr e ↦ rw (
      load_pcb-ok m p f.alive,
      f.sibs.0,
      ==_ne c null (live-ne m.pcbs c f.sibs.1),
      load_pcb-ok m c f.sibs.1,
      e,
      modify_pcb-ok m p f.alive,
      modify_pcb-ok (set_pcbs (upd m.pcbs p (with_child (sib m.pcbs c))) m) c
          (simp live-upd f.sibs.1),
    )
  ]

  -- `removeChild` of a process with children returns the first one; it has no parent then but keeps
  -- its sibling pointer, the others are the children in their order, and memory changes in the tree
  -- fields of parent and child alone.
  pub remove_child-cons : Orphaned m p c cs
  remove_child-cons = record {
    heap = orphaned m.pcbs p c;
    runs = remove-runs;
    family = orphaned-IsFamily m.pcbs p c cs f;
    frame = Grafted-orphaned m.pcbs p c f.alive f.sibs.1;
    prnt_null = ground (arith, get-orphaned m.pcbs p c f.alive f.sibs.1 c (p-ne-c m.pcbs p c cs f));
    sib_kept = ground (arith, get-orphaned m.pcbs p c f.alive f.sibs.1 c (p-ne-c m.pcbs p c cs f));
  }

-- `removeChild` of a process with no child returns NULL and changes nothing.
pub remove_child-nil : (m : Machine) (p : Ptr) → IsFamily m.pcbs p [] → remove_child p m ≡ ok null m
unfolding remove_child
remove_child-nil m p f = rw (load_pcb-ok m p f.alive, f.sibs)
