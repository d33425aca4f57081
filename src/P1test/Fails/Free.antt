-- ===== src/P1test/Fails/Free.antt =====
-- The first part of the test program: all blocks are taken, and ten given back.
use patrick_landon_os.Base.{
  ℕ, ◌+◌, ◌<◌, ◌≡◌, refl, true, false, List, [], ◌∷◌, ◌++◌, has, Distinct, length, Word, arith, ◌∙◌,
  Bool-cases, length-append, ◌==◌, inl, subst, sym, eq_of_==, inr,
}
use patrick_landon_os.Const.{max_proc}
use patrick_landon_os.Types.{Pcb, blank_pcb}
use patrick_landon_os.Machine.Memory.{Ptr, Store, live, get}
use patrick_landon_os.Pcb.FreeList.{pcb_addr}
use patrick_landon_os.Pcb.FreeList.Chain.{HasRegs, IsFreeList, Chain, alloc_pcb-nil}
use patrick_landon_os.Pcb.FreeList.Init.{Initialised, init_pcbs-blocks, blocks}
use patrick_landon_os.P1test.{Test, Places, done, codes}
use patrick_landon_os.P1test.Queues.{check_alloc}
use patrick_landon_os.P1test.Says.{IsResponsive, Said, addokbuf-Said}
use patrick_landon_os.P1test.Alloc.{
  AllTaken, alloc_loop-AllTaken, AllFreed, free_loop-AllFreed, Loose, Holds, onto,
}
use patrick_landon_os.P1test.Insert.{Disjoint}

-- A machine whose memory holds the array of process blocks, a terminal that answers, and an empty buffer.
pub record CanRun (l : Places) (t : Test) : Type 0 where
  pub pcbs : (j : ℕ) → j < max_proc → live t.kernel.pcbs (pcb_addr l.pcb_arr j) ≡ true
  pub regs : HasRegs t.kernel.pcbs
  pub responsive : IsResponsive l t.stat
  pub room : length t.okbuf + 200 < 2048

Chain-live :
    (h : Store Pcb) (a b : Ptr) (ps : List Ptr) → Chain h a ps → has b ps ≡ true → live h b ≡ true
Chain-live h a b [] c mem = cc
Chain-live h a b (x ∷ ps) c mem = elim (Bool-cases (b == x)) [
  | inl e ↦ subst (λ y. live h y ≡ true) (sym (eq_of_== b x e)) c.1
  | inr ne ↦ Chain-live h (get blank_pcb h x).p_next b ps c.2 (ground (arith, mem, ne))
]

Disjoint-cons :
    (ps zs : List Ptr) (x : Ptr) → has x ps ≡ false → Disjoint ps zs → Disjoint ps (x ∷ zs)
Disjoint-cons [] zs x out d = tt
Disjoint-cons (p ∷ ps) zs x out d =
    (ground (arith, d.0, out), Disjoint-cons ps zs x (ground (arith, out)) d.1)

Distinct-Loose :
    (h : Store Pcb) (xs ps : List Ptr)
    → ((a : Ptr) → has a xs ≡ true → live h a ≡ true)
    → Distinct xs
    → Disjoint xs ps
    → Loose h xs ps
Distinct-Loose h [] ps alive d o = tt
Distinct-Loose h (x ∷ xs) ps alive d o = (
  alive x (ground arith),
  o.0,
  Distinct-Loose h xs (x ∷ ps) (λ a mem. alive a (ground (arith, mem))) d.1
      (Disjoint-cons xs ps x d.0 o.1),
)

pub Disjoint-nil : (ps : List Ptr) → Disjoint ps []
Disjoint-nil [] = tt
Disjoint-nil (p ∷ ps) = (refl, Disjoint-nil ps)

-- The addresses of the last ten blocks that were given back: the first ten of the array.
abbrev pub ten : Places → List Ptr
ten l = onto (blocks l.pcb_arr 10) []

-- What the first part leaves behind.
pub record Prepared (l : Places) (t : Test) : Type 0 where
  pub heap : Store Pcb
  pub head : Ptr
  pub procs : ℕ → Ptr
  pub said : List ℕ
  pub reads : ℕ
  pub sent : List (Word × Word)
  pub runs :
      check_alloc l t
      ≡ done tt (record t {
        kernel = record t.kernel { pcbs = heap; pcb_free_h = head };
        procp = procs;
        okbuf = said;
        stat_reads = reads;
        sent = sent;
      })
  pub list : IsFreeList (record t.kernel { pcbs = heap; pcb_free_h = head }) (ten l)
  pub regs : HasRegs heap
  pub short : length said < length t.okbuf + 100

module _ (l : Places) (t : Test) (c : CanRun l t) where
  made : Initialised t.kernel l.pcb_arr
  made = init_pcbs-blocks t.kernel l.pcb_arr c.regs c.pcbs

  abbrev t₁ : Test
  t₁ = record t { kernel = record t.kernel { pcbs = made.heap; pcb_free_h = made.head } }

  abbrev greeting : List ℕ
  greeting = codes "Initialized process control blocks   \n"

  hello : Said l greeting t₁
  hello = addokbuf-Said l greeting t₁ c.responsive (omega (arith, c.room))

  abbrev t₂ : Test
  t₂ = record t₁ { okbuf = t.okbuf ++ greeting; stat_reads = hello.reads; sent = hello.sent }

  taken : AllTaken l 0 (blocks l.pcb_arr max_proc) t₂
  taken =
      alloc_loop-AllTaken l 0 (blocks l.pcb_arr max_proc) t₂
        (record { chain = made.list.chain; distinct = made.list.distinct }) made.regs

  abbrev t₃ : Test
  t₃ = record t₂ {
    kernel = record t₂.kernel { pcbs = taken.heap; pcb_free_h = taken.head };
    procp = taken.procs;
  }

  abbrev alloc_ok : List ℕ
  alloc_ok = codes "allocPcb ok   \n"

  second : Said l alloc_ok t₃
  second =
      addokbuf-Said l alloc_ok t₃ c.responsive
        (omega (arith, c.room, length-append t.okbuf greeting))

  abbrev t₄ : Test
  t₄ = record t₃ { okbuf = t₃.okbuf ++ alloc_ok; stat_reads = second.reads; sent = second.sent }

  held : Holds taken.procs 10 (blocks l.pcb_arr 10)
  held = taken.holds.1.1.1.1.1.1.1.1.1.1

  loose : Loose taken.heap (blocks l.pcb_arr 10) []
  loose =
      Distinct-Loose taken.heap (blocks l.pcb_arr 10) []
        (λ a mem.
          taken.same_live a
          ∙ Chain-live made.heap made.head a (blocks l.pcb_arr max_proc) made.list.chain
              (ground (arith, mem)))
        made.list.distinct.1.1.1.1.1.1.1.1.1.1 (Disjoint-nil (blocks l.pcb_arr 10))

  freed : AllFreed 10 (blocks l.pcb_arr 10) [] t₄
  freed =
      free_loop-AllFreed 10 (blocks l.pcb_arr 10) [] t₄
        (record { chain = taken.list.chain; distinct = taken.list.distinct }) taken.regs held loose

  abbrev t₅ : Test
  t₅ = record t₄ { kernel = record t₄.kernel { pcbs = freed.heap; pcb_free_h = freed.head } }

  abbrev freed_ten : List ℕ
  freed_ten = codes "freed 10 entries   \n"

  third : Said l freed_ten t₅
  third = addokbuf-Said l freed_ten t₅ c.responsive (
      omega (
        arith,
        c.room,
        length-append t.okbuf greeting,
        length-append (t.okbuf ++ greeting) alloc_ok,
      ))

  pub check_alloc-Prepared : Prepared l t
  unfolding check_alloc
  check_alloc-Prepared = record {
    heap = freed.heap;
    head = freed.head;
    procs = taken.procs;
    said = t₅.okbuf ++ freed_ten;
    reads = third.reads;
    sent = third.sent;
    runs =
        rw
          (
            made.runs,
            hello.runs,
            taken.runs,
            alloc_pcb-nil t₃.kernel taken.list,
            second.runs,
            freed.runs,
            third.runs,
          )
          refl;
    list = record { chain = freed.list.chain; distinct = freed.list.distinct };
    regs = freed.regs;
    short = omega (
      arith,
      length-append t.okbuf greeting,
      length-append (t.okbuf ++ greeting) alloc_ok,
      length-append t₅.okbuf freed_ten,
    );
  }
