-- ===== src/P1test/Insert.antt =====
-- The loop of phase1/p1test.c that fills the process queue.
use patrick_landon_os.Base.{
  ℕ, suc, ◌≤◌, ◌≡◌, refl, true, false, List, [], ◌∷◌, ◌++◌, has, length, arith, Bool-cases,
  ne_of_has, subst, ap, ◌∙◌, has-append, ◌==◌, sym, append-nil, inl, eq_of_==, inr, ==_ne, add-one,
  append_assoc,
}
use patrick_landon_os.Machine.Memory.{Ptr, Store, null, live-ne}
use patrick_landon_os.Types.{Pcb}
use patrick_landon_os.Machine.{Machine}
use patrick_landon_os.Pcb.FreeList.Chain.{
  IsFreeList, HasRegs, Allocated, alloc_pcb-cons, Chain-same,
}
use patrick_landon_os.Pcb.Queue.Links.{IsQueue, IsQueue-same}
use patrick_landon_os.Pcb.Queue.Insert.{Inserted, insert_proc_q-append}
use patrick_landon_os.P1test.{Test, Places, done}
use patrick_landon_os.P1test.Queues.{insert_loop, note_proc}
use patrick_landon_os.P1test.Alloc.{Allocated-HasRegs}

-- No block of `ps` is among `zs`.
abbrev pub Disjoint : List Ptr → List Ptr → Type 0
Disjoint [] zs = Unit
Disjoint (p ∷ ps) zs = (has p zs ≡ false) × Disjoint ps zs

Disjoint-has : (ps zs : List Ptr) (a : Ptr) → Disjoint ps zs → has a ps ≡ true → has a zs ≡ false
Disjoint-has [] zs a d mem = cc
Disjoint-has (p ∷ ps) zs a d mem = elim (Bool-cases (a == p)) [
  | inl e ↦ subst (λ b. has b zs ≡ false) (sym (eq_of_== a p e)) d.0
  | inr ne ↦ Disjoint-has ps zs a d.1 (ground (arith, mem, ne))
]

Disjoint-append :
    (ps zs : List Ptr) (x : Ptr) → has x ps ≡ false → Disjoint ps zs → Disjoint ps (zs ++ x ∷ [])
Disjoint-append [] zs x out d = tt
Disjoint-append (p ∷ ps) zs x out d = (
  ground (arith, has-append p zs (x ∷ []), d.0, out),
  Disjoint-append ps zs x (ground (arith, out)) d.1,
)

-- The first address of a list, `d` if there is none.
abbrev pub first_or : Ptr → List Ptr → Ptr
first_or d [] = d
first_or d (x ∷ xs) = x

-- What the loop leaves behind, when it takes the blocks `ps` and puts them behind `zs`.
pub record AllQueued (l : Places) (i : ℕ) (ps zs : List Ptr) (t : Test) : Type 0 where
  pub heap : Store Pcb
  pub head : Ptr
  pub tail : Ptr
  pub now : Ptr
  pub first : Ptr
  pub mid : Ptr
  pub last : Ptr
  pub runs :
      insert_loop l (length ps) i t
      ≡ done tt (record t {
        kernel = record t.kernel { pcbs = heap; pcb_free_h = head };
        qa = tail;
        q = now;
        firstproc = first;
        midproc = mid;
        lastproc = last;
      })
  pub queue : IsQueue heap tail (zs ++ ps)
  pub kept : 1 ≤ i → first ≡ t.firstproc
  pub begins : i ≡ 0 → first ≡ first_or t.firstproc ps

-- One round: the block `x` is taken and goes behind `zs`.
module _ (m : Machine) (qa x : Ptr) (ps zs : List Ptr) (f : IsFreeList m (x ∷ ps))
    (regs : HasRegs m.pcbs) (q : IsQueue m.pcbs qa zs) (d : Disjoint (x ∷ ps) zs) where
  round_taken : Allocated m x ps
  round_taken = alloc_pcb-cons m x ps f regs

  abbrev round : Machine
  round = record m { pcbs = round_taken.heap; pcb_free_h = round_taken.head }

  round_queue : IsQueue round_taken.heap qa zs
  round_queue =
      IsQueue-same zs (λ a mem. round_taken.frame.outside a (ne_of_has a x zs mem d.0))
        round_taken.frame.same_live q

  round_ins : Inserted round qa x zs
  round_ins =
      insert_proc_q-append round qa x zs round_queue (round_taken.frame.same_live x ∙ f.chain.1) d.0

  round-IsFreeList : IsFreeList (record round { pcbs = round_ins.heap }) ps
  round-IsFreeList = record {
    chain =
        Chain-same round_taken.heap round_ins.heap round_taken.head ps
          (λ a mem.
            round_ins.frame.outside a
              (ground (arith, Disjoint-has ps zs a d.1 mem, ne_of_has a x ps mem f.distinct.0)))
          round_ins.frame.same_live round_taken.list.chain;
    distinct = round_taken.list.distinct;
  }

  round-HasRegs : HasRegs round_ins.heap
  round-HasRegs a =
      ap (λ (c : Pcb). length c.p_s.s_reg) (round_ins.frame.same_core a)
      ∙ Allocated-HasRegs round_taken regs a

pub insert_loop-AllQueued :
    (l : Places) (i : ℕ) (ps zs : List Ptr) (t : Test)
    → IsFreeList t.kernel ps
    → HasRegs t.kernel.pcbs
    → IsQueue t.kernel.pcbs t.qa zs
    → Disjoint ps zs
    → AllQueued l i ps zs t
unfolding insert_loop
insert_loop-AllQueued l i [] zs t f regs q d = record {
  heap = t.kernel.pcbs;
  head = t.kernel.pcb_free_h;
  tail = t.qa;
  now = t.q;
  first = t.firstproc;
  mid = t.midproc;
  last = t.lastproc;
  runs = refl;
  queue = subst (λ xs. IsQueue t.kernel.pcbs t.qa xs) (sym (append-nil zs)) q;
  kept = λ lt. refl;
  begins = λ z. refl;
}
insert_loop-AllQueued l i (x ∷ ps) zs t f regs q d =
    let a = round_taken t.kernel t.qa x ps zs f regs q d in
    let n = round_ins t.kernel t.qa x ps zs f regs q d in
    let next = note_proc i x (record t {
      kernel = record t.kernel { pcbs = n.heap; pcb_free_h = a.head };
      qa = x;
      q = x;
    }) in
    let r =
      insert_loop-AllQueued l (suc i) ps (zs ++ x ∷ []) next
        (round-IsFreeList t.kernel t.qa x ps zs f regs q d)
        (round-HasRegs t.kernel t.qa x ps zs f regs q d) n.queue
        (Disjoint-append ps zs x f.distinct.0 d.1) in
    record {
      heap = r.heap;
      head = r.head;
      tail = r.tail;
      now = r.now;
      first = r.first;
      mid = r.mid;
      last = r.last;
      runs = rw (a.runs, ==_ne x null (live-ne t.kernel.pcbs x f.chain.1), n.runs, add-one) r.runs;
      queue = subst (λ xs. IsQueue r.heap r.tail xs) (append_assoc zs (x ∷ []) ps) r.queue;
      kept = λ lt. r.kept (omega arith) ∙ rw (==_ne i 0 (λ z. absurd (omega (arith, z, lt)))) refl;
      begins = λ z. r.kept (omega arith) ∙ rw (subst (λ j. (j == 0) ≡ true) (sym z) refl) refl;
    }
