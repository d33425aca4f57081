-- ===== src/Pcb/FreeList/Init.antt =====
-- `initPcbs` puts all the blocks of the static array on the free list.
use patrick_landon_os.Base.{
  ℕ, zero, suc, ◌+◌, ◌≤◌, ◌<◌, ◌≡◌, refl, ap, ◌∙◌, true, false, List, [], ◌∷◌, has, length, arith,
  ◌==◌, Bool-cases, inl, inr, eq_of_==, ne_of_==, subst, add-one,
}
use patrick_landon_os.Machine.Memory.{Ptr, null, Store, live, get}
use patrick_landon_os.Types.{Pcb, blank_pcb}
use patrick_landon_os.Const.{max_proc}
use patrick_landon_os.Machine.{Machine, ok}
use patrick_landon_os.Pcb.FreeList.{pcb_addr, init_pcbs_loop, init_pcbs}
use patrick_landon_os.Pcb.FreeList.Chain.{IsFreeList, HasRegs, Freed, free_pcb-cons}

-- The addresses of the first `n` blocks of the array, the last one first.
abbrev pub blocks : Ptr → ℕ → List Ptr
blocks base zero = []
blocks base (suc n) = pcb_addr base n ∷ blocks base n

not-mem-blocks : (base n j : ℕ) → n ≤ j → has (pcb_addr base j) (blocks base n) ≡ false
not-mem-blocks base zero j h = refl
not-mem-blocks base (suc n) j h = ground (arith, not-mem-blocks base n j)

pub length-blocks : (base n : ℕ) → length (blocks base n) ≡ n
length-blocks base zero = refl
length-blocks base (suc n) = ap suc (length-blocks base n)

pub Freed-HasRegs :
    {m : Machine} {p : Ptr} {ps : List Ptr} (f : Freed m p ps) → HasRegs m.pcbs → HasRegs f.heap
Freed-HasRegs {p} f regs a = elim (Bool-cases (a == p)) [
  | inl e ↦
      ap (λ (c : Pcb). length c.p_s.s_reg) (ap (get blank_pcb f.heap) (eq_of_== a p e) ∙ f.cell)
  | inr e ↦ ap (λ (c : Pcb). length c.p_s.s_reg) (f.frame.outside a (ne_of_== a p e)) ∙ regs a
]

-- What the loop leaves behind, once `k` blocks are on the list.
record Looped (m : Machine) (base n i k : ℕ) : Type 0 where
  heap : Store Pcb
  head : Ptr
  runs : init_pcbs_loop base n i m ≡ ok tt (record m { pcbs = heap; pcb_free_h = head })
  list : IsFreeList (record m { pcbs = heap; pcb_free_h = head }) (blocks base k)
  regs : HasRegs heap
  same_live : (a : Ptr) → live heap a ≡ live m.pcbs a

module _ {m : Machine} {base n i k : ℕ} (f : Freed m (pcb_addr base i) (blocks base i)) where
  -- One round, and the rounds after it.
  Looped-suc :
      Looped (record m { pcbs = f.heap; pcb_free_h = pcb_addr base i }) base n (suc i) k
      → Looped m base (suc n) i k
  unfolding init_pcbs_loop
  Looped-suc rest = record {
    heap = rest.heap;
    head = rest.head;
    runs = rw (f.runs, add-one) rest.runs;
    list = rest.list;
    regs = rest.regs;
    same_live = λ a. rest.same_live a ∙ f.frame.same_live a;
  }

init_pcbs_loop-blocks :
    (base n i k : ℕ) (m : Machine)
    → n + i ≡ k
    → IsFreeList m (blocks base i)
    → HasRegs m.pcbs
    → ((j : ℕ) → j < k → live m.pcbs (pcb_addr base j) ≡ true)
    → Looped m base n i k
unfolding init_pcbs_loop
init_pcbs_loop-blocks base zero i k m e l regs alive = record {
  heap = m.pcbs;
  head = m.pcb_free_h;
  runs = refl;
  list = subst (λ j. IsFreeList m (blocks base j)) (omega arith) l;
  regs = regs;
  same_live = λ a. refl;
}
init_pcbs_loop-blocks base (suc n) i k m e l regs alive =
    let f : Freed m (pcb_addr base i) (blocks base i) =
      free_pcb-cons m (pcb_addr base i) (blocks base i) l regs (alive i (omega arith))
        (not-mem-blocks base i i (omega arith)) in
    Looped-suc f (
      init_pcbs_loop-blocks base n (suc i) k
        (record m { pcbs = f.heap; pcb_free_h = pcb_addr base i }) (omega arith) f.list
        (Freed-HasRegs f regs) (λ j h. f.frame.same_live _ ∙ alive j h))

pub record Initialised (m : Machine) (base : Ptr) : Type 0 where
  pub heap : Store Pcb
  pub head : Ptr
  pub runs : init_pcbs base m ≡ ok tt (record m { pcbs = heap; pcb_free_h = head })
  pub list : IsFreeList (record m { pcbs = heap; pcb_free_h = head }) (blocks base max_proc)
  pub regs : HasRegs heap
  pub same_live : (a : Ptr) → live heap a ≡ live m.pcbs a

-- `initPcbs`, where the array lies in memory: it returns, and the free list then holds the `MAXPROC`
-- blocks of the array, each once, the last one first, whatever `pcbFree_h` was.
pub init_pcbs-blocks :
    (m : Machine) (base : Ptr)
    → HasRegs m.pcbs
    → ((j : ℕ) → j < max_proc → live m.pcbs (pcb_addr base j) ≡ true)
    → Initialised m base
unfolding init_pcbs
init_pcbs-blocks m base regs alive =
    let r =
      init_pcbs_loop-blocks base max_proc 0 max_proc (record m { pcb_free_h = null }) (omega arith)
        (record { chain = refl; distinct = tt }) regs alive in
    record {
      heap = r.heap;
      head = r.head;
      runs = r.runs;
      list = r.list;
      regs = r.regs;
      same_live = r.same_live;
    }
