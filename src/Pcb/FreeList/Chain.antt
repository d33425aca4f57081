-- ===== src/Pcb/FreeList/Chain.antt =====
-- The free list as a list of blocks; `freePcb` and `allocPcb` push to it and pop from it.
use patrick_landon_os.Base.{
  ◌≡◌, ◌≢◌, refl, sym, ap, ◌∙◌, true, false, List, [], ◌∷◌, has, Distinct, length, arith, ◌==◌,
  Bool-cases, inl, inr, eq_of_==, ==_ne, subst, ne_of_has,
}
use patrick_landon_os.Machine.Memory.{
  Ptr, null, Store, live, get, upd, live-upd, get-upd, get-upd_self, live-ne,
}
use patrick_landon_os.Types.{Pcb, blank_pcb}
use patrick_landon_os.Const.{state_reg_num}
use patrick_landon_os.Machine.{Machine, ok, set_pcbs}
use patrick_landon_os.Machine.Lemmas.{load_pcb-ok, modify_pcb-ok}
use patrick_landon_os.Pcb.FreeList.{clear_fields, free_pcb, alloc_pcb}
use patrick_landon_os.Pcb.FreeList.Reset.{clear_fields-blank, reset_state-zero}

-- From `a` the forward pointers lead through the blocks of the list to NULL.
abbrev pub Chain : Store Pcb → Ptr → List Ptr → Type 0
Chain h a [] = a ≡ null
Chain h a (b ∷ bs) = (a ≡ b) × (live h b ≡ true) × Chain h (get blank_pcb h b).p_next bs

-- Every block in memory has the registers of a `state_t`.
abbrev pub HasRegs : Store Pcb → Type 0
HasRegs h = (a : Ptr) → length (get blank_pcb h a).p_s.s_reg ≡ state_reg_num

-- `pcbFree_h` lists the distinct blocks `ps`.
pub record IsFreeList (m : Machine) (ps : List Ptr) : Type 0 where
  pub chain : Chain m.pcbs m.pcb_free_h ps
  pub distinct : Distinct ps

-- `g` is `h` but for the block `p`.
pub record SameBut (p : Ptr) (h g : Store Pcb) : Type 0 where
  pub same_live : (a : Ptr) → live g a ≡ live h a
  pub outside : (a : Ptr) → a ≢ p → get blank_pcb g a ≡ get blank_pcb h a

pub Chain-same :
    (h g : Store Pcb) (a : Ptr) (ps : List Ptr)
    → ((x : Ptr) → has x ps ≡ true → get blank_pcb g x ≡ get blank_pcb h x)
    → ((x : Ptr) → live g x ≡ live h x)
    → Chain h a ps
    → Chain g a ps
Chain-same h g a [] same alive c = c
Chain-same h g a (b ∷ bs) same alive c = (
  c.0,
  alive b ∙ c.1,
  subst (λ n. Chain g n bs) (sym (ap (λ (d : Pcb). d.p_next) (same b (ground arith))))
      (Chain-same h g (get blank_pcb h b).p_next bs (λ x i. same x (ground arith)) alive c.2),
)

-- What `freePcb` writes after the fields are cleared.
abbrev relinked : Ptr → Pcb → Pcb
relinked head c = record c { p_prev = null; p_next = head }

relinked-blank :
    (head : Ptr) (c : Pcb)
    → length c.p_s.s_reg ≡ state_reg_num
    → relinked head (clear_fields c) ≡ record blank_pcb { p_next = head }
unfolding clear_fields
relinked-blank head c h =
    ap (λ s. record blank_pcb { p_next = head; p_s = s }) (reset_state-zero c.p_s h)

abbrev with_free : Store Pcb → Ptr → Machine → Machine
with_free h p m = record m { pcbs = h; pcb_free_h = p }

pub record Freed (m : Machine) (p : Ptr) (ps : List Ptr) : Type 0 where
  pub heap : Store Pcb
  pub runs : free_pcb p m ≡ ok tt (record m { pcbs = heap; pcb_free_h = p })
  pub list : IsFreeList (record m { pcbs = heap; pcb_free_h = p }) (p ∷ ps)
  pub frame : SameBut p m.pcbs heap
  pub cell : get blank_pcb heap p ≡ record blank_pcb { p_next = m.pcb_free_h }

module _ (m : Machine) (p : Ptr) (lp : live m.pcbs p ≡ true) where
  cleared : Store Pcb
  cleared = upd m.pcbs p clear_fields

  freed : Store Pcb
  freed = upd cleared p (relinked m.pcb_free_h)

  lp' : live cleared p ≡ true
  unfolding cleared
  lp' = simp live-upd lp

  frame : SameBut p m.pcbs freed
  unfolding freed cleared
  frame = record {
    same_live = λ a. simp live-upd;
    outside = λ a ne. ground (
      arith,
      get-upd blank_pcb cleared p (relinked m.pcb_free_h) a lp',
      get-upd blank_pcb m.pcbs p clear_fields a lp,
    );
  }

  cell : HasRegs m.pcbs → get blank_pcb freed p ≡ record blank_pcb { p_next = m.pcb_free_h }
  unfolding freed cleared
  cell regs =
      get-upd_self blank_pcb cleared p (relinked m.pcb_free_h) lp'
      ∙ ap (relinked m.pcb_free_h) (get-upd_self blank_pcb m.pcbs p clear_fields lp)
      ∙ relinked-blank m.pcb_free_h (get blank_pcb m.pcbs p) (regs p)

  free-runs : free_pcb p m ≡ ok tt (with_free freed p m)
  unfolding free_pcb freed cleared
  free-runs = elim (Bool-cases (m.pcb_free_h == null)) [
    | inl e ↦ rw (
      modify_pcb-ok m p lp,
      e,
      modify_pcb-ok (set_pcbs cleared m) p lp',
      eq_of_== m.pcb_free_h null e,
    )
    | inr e ↦ rw (modify_pcb-ok m p lp, e, modify_pcb-ok (set_pcbs cleared m) p lp')
  ]

-- `freePcb` of a block that is in memory and not on the list: it returns, the block is now the first
-- of the list and otherwise blank, and no other block changes.
pub free_pcb-cons :
    (m : Machine) (p : Ptr) (ps : List Ptr)
    → IsFreeList m ps
    → HasRegs m.pcbs
    → live m.pcbs p ≡ true
    → has p ps ≡ false
    → Freed m p ps
free_pcb-cons m p ps l regs lp new = record {
  heap = freed m p lp;
  runs = free-runs m p lp;
  list = record {
    chain = (
      refl,
      f.same_live p ∙ lp,
      subst (λ n. Chain (freed m p lp) n ps) (sym (ap (λ (c : Pcb). c.p_next) blank))
          (Chain-same m.pcbs (freed m p lp) m.pcb_free_h ps
            (λ x i. f.outside x (ne_of_has x p ps i new)) f.same_live l.chain),
    );
    distinct = (new, l.distinct);
  };
  frame = f;
  cell = blank;
}
  where
    f : SameBut p m.pcbs (freed m p lp)
    f = frame m p lp

    blank : get blank_pcb (freed m p lp) p ≡ record blank_pcb { p_next = m.pcb_free_h }
    blank = cell m p lp regs

-- What `allocPcb` leaves behind when it takes `p` from the front of the list.
pub record Allocated (m : Machine) (p : Ptr) (ps : List Ptr) : Type 0 where
  pub heap : Store Pcb
  pub head : Ptr
  pub runs : alloc_pcb m ≡ ok p (record m { pcbs = heap; pcb_free_h = head })
  pub list : IsFreeList (record m { pcbs = heap; pcb_free_h = head }) ps
  pub frame : SameBut p m.pcbs heap
  pub cell : get blank_pcb heap p ≡ blank_pcb

abbrev unlinked : Pcb → Pcb
unlinked c = clear_fields (record c { p_next = null; p_prev = null })

abbrev taken : Machine → Ptr → Machine
taken m p = record m { pcbs = upd m.pcbs p unlinked; pcb_free_h = (get blank_pcb m.pcbs p).p_next }

alloc-runs :
    (m : Machine)
    → live m.pcbs m.pcb_free_h ≡ true
    → alloc_pcb m ≡ ok m.pcb_free_h (taken m m.pcb_free_h)
unfolding alloc_pcb
alloc-runs m e = rw (
  ==_ne m.pcb_free_h null (live-ne m.pcbs m.pcb_free_h e),
  load_pcb-ok m m.pcb_free_h e,
  modify_pcb-ok (record m { pcb_free_h = (get blank_pcb m.pcbs m.pcb_free_h).p_next }) m.pcb_free_h
      e,
)

-- `allocPcb` on a list that is not empty: it returns the first block, now blank, the list holds the
-- others, and no other block changes.
pub alloc_pcb-cons :
    (m : Machine) (p : Ptr) (ps : List Ptr)
    → IsFreeList m (p ∷ ps)
    → HasRegs m.pcbs
    → Allocated m p ps
unfolding alloc_pcb
alloc_pcb-cons m p ps l regs = record {
  heap = heap;
  head = (get blank_pcb m.pcbs p).p_next;
  runs = subst (λ a. alloc_pcb m ≡ ok a (taken m a)) l.chain.0 (alloc-runs m (rw l.chain.0 lp));
  list = record {
    chain =
        Chain-same m.pcbs heap (get blank_pcb m.pcbs p).p_next ps
          (λ x i. f.outside x (ne_of_has x p ps i l.distinct.0)) f.same_live l.chain.2;
    distinct = l.distinct.1;
  };
  frame = f;
  cell =
      get-upd_self blank_pcb m.pcbs p unlinked lp
      ∙ clear_fields-blank (record (get blank_pcb m.pcbs p) { p_next = null; p_prev = null })
          (regs p) refl refl;
}
  where
    lp : live m.pcbs p ≡ true
    lp = l.chain.1

    heap : Store Pcb
    heap = upd m.pcbs p unlinked

    f : SameBut p m.pcbs heap
    f = record {
      same_live = λ a. live-upd m.pcbs p unlinked a;
      outside = λ a ne. ground (arith, get-upd blank_pcb m.pcbs p unlinked a lp);
    }

-- On an empty list it returns NULL and changes nothing.
pub alloc_pcb-nil : (m : Machine) → IsFreeList m [] → alloc_pcb m ≡ ok null m
unfolding alloc_pcb
alloc_pcb-nil m l = rw (ap (λ a. a == null) l.chain)
