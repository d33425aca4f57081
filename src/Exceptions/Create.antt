-- ===== src/Exceptions/Create.antt =====
-- System call 1.
use patrick_landon_os.Base.{
  ◌≡◌, ◌≢◌, ◌∙◌, ap, refl, sym, true, false, List, [], ◌∷◌, ◌++◌, has, ◌+w◌, length, arith, ==_ne,
  ne_of_has, subst,
}
use patrick_landon_os.Const.{state_reg_num, success, fail}
use patrick_landon_os.Types.{State, Pcb, zero_state, blank_pcb, set_reg, s_v0}
use patrick_landon_os.Machine.{Machine, exit, ldst}
use patrick_landon_os.Machine.Memory.{
  Ptr, Store, null, live, get, upd, live-upd, get-upd_self, get-upd, live-ne,
}
use patrick_landon_os.CopyState.{copy_state}
use patrick_landon_os.Pcb.FreeList.Chain.{
  IsFreeList, HasRegs, Allocated, alloc_pcb-cons, Chain-same, alloc_pcb-nil,
}
use patrick_landon_os.Pcb.Queue.Links.{IsQueue, IsQueue-same}
use patrick_landon_os.Pcb.Queue.Insert.{Inserted, insert_proc_q-append}
use patrick_landon_os.Pcb.Tree.Family.{IsFamily, child, sib, prnt, Sibs, Sibs-same}
use patrick_landon_os.Pcb.Tree.Insert.{Adopted, insert_child-cons}
use patrick_landon_os.Exceptions.Semaphores.{caller, sem_of}
use patrick_landon_os.Exceptions.Calls.{createprocess}
use patrick_landon_os.Machine.Lemmas.{load_state-ok, modify_pcb-ok, modify_state-ok}
use patrick_landon_os.CopyState.Equal.{copy_state-eq}

-- Where the tree fields are the same, so is the family.
IsFamily-fields :
    (h g : Store Pcb) (q : Ptr) (cs : List Ptr)
    → child g q ≡ child h q
    → ((x : Ptr) → has x cs ≡ true → (prnt g x ≡ prnt h x) × (sib g x ≡ sib h x))
    → ((a : Ptr) → live g a ≡ live h a)
    → IsFamily h q cs
    → IsFamily g q cs
IsFamily-fields h g q cs first same alive f = record {
  alive = alive q ∙ f.alive;
  sibs = subst (λ n. Sibs g q n cs) (sym first) (Sibs-same h g q (child h q) cs same alive f.sibs);
  distinct = f.distinct;
  proper = f.proper;
}

-- A call whose `a1` leads to the state to start from, where the block `p` is the first free one, and
-- the free blocks are neither ready nor in the family of the caller.
pub record CanCreate (m : Machine) (state p : Ptr) (ps cs xs : List Ptr) : Type 0 where
  pub saved : live m.states state ≡ true
  pub start : live m.states (sem_of m state) ≡ true
  pub start_regs : length (get zero_state m.states (sem_of m state)).s_reg ≡ state_reg_num
  pub free : IsFreeList m (p ∷ ps)
  pub regs : HasRegs m.pcbs
  pub family : IsFamily m.pcbs m.current_proc cs
  pub fresh : has p (m.current_proc ∷ cs) ≡ false
  pub queue : IsQueue m.pcbs m.ready_que xs
  pub running : has m.current_proc xs ≡ false
  pub new : has p xs ≡ false
  pub apart : (a : Ptr) → has a ps ≡ true → has a (m.current_proc ∷ xs) ≡ false

-- What the call leaves behind.
pub record Created (m : Machine) (state p : Ptr) (ps cs xs : List Ptr) : Type 0 where
  pub last : Machine
  pub runs : createprocess state m ≡ exit (ldst (set_reg s_v0 success (caller m state))) last
  pub free : IsFreeList last ps
  pub family : IsFamily last.pcbs m.current_proc (p ∷ cs)
  pub ready : IsQueue last.pcbs last.ready_que (xs ++ p ∷ [])
  pub start : (get blank_pcb last.pcbs p).p_s ≡ get zero_state m.states (sem_of m state)
  pub count : last.proc_cnt ≡ (m.proc_cnt +w 1)

module _ (m : Machine) (state p : Ptr) (ps cs xs : List Ptr)
    (c : CanCreate m state p ps cs xs) where
  abbrev cur : Ptr
  cur = m.current_proc

  abbrev first : State
  first = get zero_state m.states (sem_of m state)

  taken : Allocated m p ps
  taken = alloc_pcb-cons m p ps c.free c.regs

  lp : live taken.heap p ≡ true
  lp = taken.frame.same_live p ∙ c.free.chain.1

  abbrev starts : Pcb → Pcb
  starts d = record d { p_s = copy_state first d.p_s }

  abbrev m₁ : Machine
  m₁ = record m { pcbs = upd taken.heap p starts; pcb_free_h = taken.head }

  live₁ : (a : Ptr) → live m₁.pcbs a ≡ live m.pcbs a
  live₁ a = live-upd taken.heap p starts a ∙ taken.frame.same_live a

  same₁ : (a : Ptr) → a ≢ p → get blank_pcb m₁.pcbs a ≡ get blank_pcb m.pcbs a
  same₁ a ne =
      get-upd blank_pcb taken.heap p starts a lp
      ∙ (rw (==_ne a p ne) refl ∙ taken.frame.outside a ne)

  cell₁ : get blank_pcb m₁.pcbs p ≡ starts blank_pcb
  cell₁ = get-upd_self blank_pcb taken.heap p starts lp ∙ ap starts taken.cell

  family₁ : IsFamily m₁.pcbs cur cs
  family₁ =
      IsFamily-fields m.pcbs m₁.pcbs cur cs
        (ap (λ (d : Pcb). d.p_child) (same₁ cur (λ q. absurd (ground (arith, q, c.fresh)))))
        (λ x mem.
          let e = same₁ x (λ q. absurd (ground (arith, q, mem, c.fresh))) in
          (ap (λ (d : Pcb). d.p_prnt) e, ap (λ (d : Pcb). d.p_sib) e))
        live₁ c.family

  adopted : Adopted m₁ cur p cs
  adopted =
      insert_child-cons m₁ cur p cs family₁ (live₁ p ∙ c.free.chain.1) c.fresh
        (ap (λ (d : Pcb). d.p_sib) cell₁)

  abbrev m₂ : Machine
  m₂ = record m₁ { pcbs = adopted.heap }

  queue₂ : IsQueue m₂.pcbs m.ready_que xs
  queue₂ =
      IsQueue-same xs
        (λ a mem.
          let ne = ne_of_has a p xs mem c.new in
          adopted.frame.outside a (ground (arith, ne, ne_of_has a cur xs mem c.running))
          ∙ same₁ a ne)
        (λ a. adopted.frame.same_live a ∙ live₁ a) c.queue

  ins : Inserted m₂ m.ready_que p xs
  ins =
      insert_proc_q-append m₂ m.ready_que p xs queue₂
        (adopted.frame.same_live p ∙ (live₁ p ∙ c.free.chain.1)) c.new

  last : Machine
  last = record m₂ {
    pcbs = ins.heap;
    ready_que = p;
    proc_cnt = m.proc_cnt +w 1;
    states = upd m.states state (set_reg s_v0 success);
  }

  createprocess-runs :
      createprocess state m ≡ exit (ldst (set_reg s_v0 success (caller m state))) last
  unfolding createprocess last
  createprocess-runs =
      rw
        (
          taken.runs,
          ==_ne p null (live-ne taken.heap p lp),
          load_state-ok (record m { pcbs = taken.heap; pcb_free_h = taken.head }) state c.saved,
          load_state-ok (record m { pcbs = taken.heap; pcb_free_h = taken.head }) (sem_of m state)
              c.start,
          modify_pcb-ok (record m { pcbs = taken.heap; pcb_free_h = taken.head }) p lp,
          adopted.runs,
          ins.runs,
          modify_state-ok (record m₂ { pcbs = ins.heap; ready_que = p; proc_cnt = m.proc_cnt +w 1 })
              state c.saved,
          load_state-ok last state (simp live-upd c.saved),
          get-upd_self zero_state m.states state (set_reg s_v0 success) c.saved,
        )
        refl

  last-IsFreeList : IsFreeList last ps
  unfolding last
  last-IsFreeList = record {
    chain =
        Chain-same taken.heap ins.heap taken.head ps
          (λ a mem.
            let ne = ne_of_has a p ps mem c.free.distinct.0 in
            let out = c.apart a mem in
            ins.frame.outside a (ground (arith, ne, out))
            ∙ adopted.frame.outside a (ground (arith, ne, out))
            ∙ get-upd blank_pcb taken.heap p starts a lp
            ∙ rw (==_ne a p ne) refl)
          (λ a. ins.frame.same_live a ∙ adopted.frame.same_live a ∙ live-upd taken.heap p starts a)
          taken.list.chain;
    distinct = taken.list.distinct;
  }

  last-IsFamily : IsFamily last.pcbs cur (p ∷ cs)
  unfolding last
  last-IsFamily =
      IsFamily-fields adopted.heap ins.heap cur (p ∷ cs)
        (ap (λ (d : Pcb). d.p_child) (ins.frame.same_core cur))
        (λ x mem. (
          ap (λ (d : Pcb). d.p_prnt) (ins.frame.same_core x),
          ap (λ (d : Pcb). d.p_sib) (ins.frame.same_core x),
        ))
        ins.frame.same_live adopted.family

  last-start : (get blank_pcb last.pcbs p).p_s ≡ first
  unfolding last
  last-start =
      ap (λ (d : Pcb). d.p_s) (ins.frame.same_core p)
      ∙ ap (λ (d : Pcb). d.p_s) (adopted.frame.same_mask p)
      ∙ ap (λ (d : Pcb). d.p_s) cell₁
      ∙ copy_state-eq first zero_state c.start_regs refl

-- System call 1 while there is a free block: the caller goes on with 0 in `v0`; the block has the state
-- that the call points to, is the first of the children of the caller, before the old ones, and the
-- last of the ready processes, behind the others; the other free blocks are free as before, and one
-- more process counts.
pub createprocess-Created :
    (m : Machine) (state p : Ptr) (ps cs xs : List Ptr)
    → CanCreate m state p ps cs xs
    → Created m state p ps cs xs
unfolding last
createprocess-Created m state p ps cs xs c = record {
  last = last m state p ps cs xs c;
  runs = createprocess-runs m state p ps cs xs c;
  free = last-IsFreeList m state p ps cs xs c;
  family = last-IsFamily m state p ps cs xs c;
  ready = (ins m state p ps cs xs c).queue;
  start = last-start m state p ps cs xs c;
  count = refl;
}

-- With no free block the caller goes on with -1 in `v0`, and nothing else changes.
pub createprocess-failed :
    (m : Machine) (state : Ptr)
    → live m.states state ≡ true
    → IsFreeList m []
    → createprocess state m
      ≡ exit
          (ldst (set_reg s_v0 fail (caller m state)))
          (record m { states = upd m.states state (set_reg s_v0 fail) })
unfolding createprocess
createprocess-failed m state saved l =
    rw
      (
        alloc_pcb-nil m l,
        modify_state-ok m state saved,
        load_state-ok (record m { states = upd m.states state (set_reg s_v0 fail) }) state
            (simp live-upd saved),
        get-upd_self zero_state m.states state (set_reg s_v0 fail) saved,
      )
      refl
