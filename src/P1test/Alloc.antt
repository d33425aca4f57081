-- ===== src/P1test/Alloc.antt =====
-- The loops of phase1/p1test.c that take all blocks and give the last ten back.
use patrick_landon_os.Base.{
  ℕ, suc, ◌<◌, ◌≡◌, refl, true, false, List, [], ◌∷◌, has, length, arith, ◌∙◌, ==_ne, add-one,
  Bool-cases, ==_self, ◌==◌, inl, ap, eq_of_==, inr, ne_of_==,
}
use patrick_landon_os.Machine.Memory.{Ptr, Store, null, live, get, live-ne}
use patrick_landon_os.Types.{Pcb, blank_pcb}
use patrick_landon_os.Pcb.FreeList.Chain.{
  IsFreeList, HasRegs, Allocated, alloc_pcb-cons, free_pcb-cons,
}
use patrick_landon_os.P1test.{Test, Places, done}
use patrick_landon_os.P1test.Queues.{alloc_loop, free_loop, put_proc}
use patrick_landon_os.Machine.{Machine}
use patrick_landon_os.Pcb.FreeList.Init.{Freed-HasRegs}

-- From the index `i` on, the array holds the addresses of the list.
abbrev pub Holds : (ℕ → Ptr) → ℕ → List Ptr → Type 0
Holds f i [] = Unit
Holds f i (x ∷ xs) = (f i ≡ x) × Holds f (suc i) xs

Holds-put_proc :
    (f : ℕ → Ptr) (i j : ℕ) (a : Ptr) (xs : List Ptr)
    → i < j
    → Holds f j xs
    → Holds (put_proc f i a) j xs
Holds-put_proc f i j a [] lt h = tt
Holds-put_proc f i j a (x ∷ xs) lt h = (
  rw (==_ne j i (λ q. absurd (omega (arith, q, lt)))) h.0,
  Holds-put_proc f i (suc j) a xs (omega (arith, lt)) h.1,
)

pub Allocated-HasRegs :
    {m : Machine} {p : Ptr} {ps : List Ptr} (a : Allocated m p ps) → HasRegs m.pcbs → HasRegs a.heap
Allocated-HasRegs {p} a regs b = elim (Bool-cases (b == p)) [
  | inl e ↦
      ap (λ (c : Pcb). length c.p_s.s_reg) (ap (get blank_pcb a.heap) (eq_of_== b p e) ∙ a.cell)
  | inr e ↦ ap (λ (c : Pcb). length c.p_s.s_reg) (a.frame.outside b (ne_of_== b p e)) ∙ regs b
]

-- What the loop that takes the blocks `ps` leaves behind.
pub record AllTaken (l : Places) (i : ℕ) (ps : List Ptr) (t : Test) : Type 0 where
  pub heap : Store Pcb
  pub head : Ptr
  pub procs : ℕ → Ptr
  pub runs :
      alloc_loop l (length ps) i t
      ≡ done tt
          (record t { kernel = record t.kernel { pcbs = heap; pcb_free_h = head }; procp = procs })
  pub list : IsFreeList (record t.kernel { pcbs = heap; pcb_free_h = head }) []
  pub regs : HasRegs heap
  pub same_live : (a : Ptr) → live heap a ≡ live t.kernel.pcbs a
  pub holds : Holds procs i ps
  pub kept : (j : ℕ) → j < i → procs j ≡ t.procp j

pub alloc_loop-AllTaken :
    (l : Places) (i : ℕ) (ps : List Ptr) (t : Test)
    → IsFreeList t.kernel ps
    → HasRegs t.kernel.pcbs
    → AllTaken l i ps t
unfolding alloc_loop
alloc_loop-AllTaken l i [] t f regs = record {
  heap = t.kernel.pcbs;
  head = t.kernel.pcb_free_h;
  procs = t.procp;
  runs = refl;
  list = f;
  regs = regs;
  same_live = λ a. refl;
  holds = tt;
  kept = λ j lt. refl;
}
alloc_loop-AllTaken l i (x ∷ ps) t f regs =
    let a = alloc_pcb-cons t.kernel x ps f regs in
    let next = record t {
      kernel = record t.kernel { pcbs = a.heap; pcb_free_h = a.head };
      procp = put_proc t.procp i x;
    } in
    let r = alloc_loop-AllTaken l (suc i) ps next a.list (Allocated-HasRegs a regs) in
    record {
      heap = r.heap;
      head = r.head;
      procs = r.procs;
      runs = rw (a.runs, ==_ne x null (live-ne t.kernel.pcbs x f.chain.1), add-one) r.runs;
      list = r.list;
      regs = r.regs;
      same_live = λ b. r.same_live b ∙ a.frame.same_live b;
      holds = (r.kept i (omega arith) ∙ rw (==_self i) refl, r.holds);
      kept = λ j lt.
          r.kept j (omega (arith, lt)) ∙ rw (==_ne j i (λ q. absurd (omega (arith, q, lt)))) refl;
    }

-- The list `xs` turned around, before `ps`.
abbrev pub onto : List Ptr → List Ptr → List Ptr
onto [] ps = ps
onto (x ∷ xs) ps = onto xs (x ∷ ps)

-- What the loop that gives the blocks `xs` back leaves behind.
pub record AllFreed (i : ℕ) (xs ps : List Ptr) (t : Test) : Type 0 where
  pub heap : Store Pcb
  pub head : Ptr
  pub runs :
      free_loop (length xs) i t
      ≡ done tt (record t { kernel = record t.kernel { pcbs = heap; pcb_free_h = head } })
  pub list : IsFreeList (record t.kernel { pcbs = heap; pcb_free_h = head }) (onto xs ps)
  pub regs : HasRegs heap
  pub same_live : (a : Ptr) → live heap a ≡ live t.kernel.pcbs a

-- Blocks that are in memory, distinct, and not among `ps`.
abbrev pub Loose : Store Pcb → List Ptr → List Ptr → Type 0
Loose h [] ps = Unit
Loose h (x ∷ xs) ps = (live h x ≡ true) × (has x ps ≡ false) × Loose h xs (x ∷ ps)

Loose-same :
    (h g : Store Pcb) (xs ps : List Ptr)
    → ((a : Ptr) → live g a ≡ live h a)
    → Loose h xs ps
    → Loose g xs ps
Loose-same h g [] ps same c = tt
Loose-same h g (x ∷ xs) ps same c = (same x ∙ c.0, c.1, Loose-same h g xs (x ∷ ps) same c.2)

pub free_loop-AllFreed :
    (i : ℕ) (xs ps : List Ptr) (t : Test)
    → IsFreeList t.kernel ps
    → HasRegs t.kernel.pcbs
    → Holds t.procp i xs
    → Loose t.kernel.pcbs xs ps
    → AllFreed i xs ps t
unfolding free_loop
free_loop-AllFreed i [] ps t f regs h c = record {
  heap = t.kernel.pcbs;
  head = t.kernel.pcb_free_h;
  runs = refl;
  list = f;
  regs = regs;
  same_live = λ a. refl;
}
free_loop-AllFreed i (x ∷ xs) ps t f regs h c =
    let g = free_pcb-cons t.kernel x ps f regs c.0 c.1 in
    let next = record t { kernel = record t.kernel { pcbs = g.heap; pcb_free_h = x } } in
    let r =
      free_loop-AllFreed (suc i) xs (x ∷ ps) next g.list (Freed-HasRegs g regs) h.1
        (Loose-same t.kernel.pcbs g.heap xs (x ∷ ps) g.frame.same_live c.2) in
    record {
      heap = r.heap;
      head = r.head;
      runs = rw (h.0, g.runs, add-one) r.runs;
      list = r.list;
      regs = r.regs;
      same_live = λ b. r.same_live b ∙ g.frame.same_live b;
    }
