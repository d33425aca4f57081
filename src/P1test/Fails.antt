-- ===== src/P1test/Fails.antt =====
-- phase1/p1test.c, run on the functions of phase 1.
use patrick_landon_os.P1test.Fails.Fill.{fill_queue-Filled}
use patrick_landon_os.P1test.Fails.Free.{check_alloc-Prepared, CanRun, ten}
pub mod Free
pub mod Fill
use patrick_landon_os.Base.{
  ℕ, zero, suc, ◌+◌, ◌≤◌, ◌<◌, ◌≡◌, ◌≢◌, refl, true, false, List, [], ◌∷◌, ◌++◌, has, length, Word,
  arith, ==_ne, subst, ◌==◌, sym, ==_self, ◌∙◌,
}
use patrick_landon_os.Machine
use patrick_landon_os.Machine.Memory.{Ptr, null, live-ne}
use patrick_landon_os.Pcb.FreeList.{pcb_addr}
use patrick_landon_os.Pcb.Queue.Links.{IsQueue, tail-live}
use patrick_landon_os.Pcb.Queue.Remove.{head_proc_q-first}
use patrick_landon_os.Pcb.Queue.Out.{out_proc_q-not_tail}
use patrick_landon_os.P1test.{Test, Places, done, stopped, codes}
use patrick_landon_os.P1test.Queues.{check_out}
use patrick_landon_os.P1test.Main.{main}
use patrick_landon_os.P1test.Says.{IsResponsive, Complained, adderrbuf-Complained}

abbrev complaint : List ℕ
complaint = codes "outProcQ failed on first entry   "

-- The third part, on a queue of ten blocks whose first one is noted: it stops.
module _ (l : Places) (t : Test) (responsive : IsResponsive l t.stat)
    (q : IsQueue t.kernel.pcbs t.qa (ten l)) (first : t.firstproc ≡ pcb_addr l.pcb_arr 0) where
  not_tail : pcb_addr l.pcb_arr 0 ≢ t.qa
  not_tail e = absurd (omega (arith, e, q.tail))

  stuck : Complained l complaint (record t { q = null })
  stuck = adderrbuf-Complained l complaint (record t { q = null }) responsive (omega arith)

  check_out-stopped :
      check_out l t
      ≡ stopped Machine.panic
          (record t { q = null; errbuf = complaint; stat_reads = stuck.reads; sent = stuck.sent })
  unfolding check_out
  check_out-stopped =
      rw
        (
          ==_ne t.qa null (live-ne t.kernel.pcbs t.qa (tail-live q)),
          head_proc_q-first t.kernel t.qa (ten l) q,
          subst (λ a. (pcb_addr l.pcb_arr 0 == a) ≡ true) (sym first)
              (==_self (pcb_addr l.pcb_arr 0)),
          out_proc_q-not_tail t.kernel t.qa t.firstproc (ten l) q (λ e. not_tail (sym first ∙ e)),
          stuck.runs,
        )
        refl

-- What is left when the machine has stopped.
pub record Panicked (l : Places) (t : Test) : Type 0 where
  pub last : Test
  pub runs : main l t ≡ stopped Machine.panic last
  pub error : last.errbuf ≡ complaint

-- `main` of the test program, wherever the array of process blocks lies, on a terminal that answers: it
-- ends in PANIC with the message that `outProcQ` failed on the first entry, since the first block of
-- the queue of ten is not the last.
pub main-Panicked : (l : Places) (t : Test) → CanRun l t → Panicked l t
unfolding main
main-Panicked l t c =
    let a = check_alloc-Prepared l t c in
    let t₁ = record t {
      kernel = record t.kernel { pcbs = a.heap; pcb_free_h = a.head };
      procp = a.procs;
      okbuf = a.said;
      stat_reads = a.reads;
      sent = a.sent;
    } in
    let b = fill_queue-Filled l t₁ c.responsive (omega (arith, c.room, a.short)) a.list a.regs in
    let t₂ = record t₁ {
      kernel = record t.kernel { pcbs = b.heap; pcb_free_h = b.head };
      qa = b.tail;
      q = b.now;
      firstproc = b.first;
      midproc = b.mid;
      lastproc = b.last;
      okbuf = b.said;
      stat_reads = b.reads;
      sent = b.sent;
    } in
    record {
      last = record t₂ {
        q = null;
        errbuf = complaint;
        stat_reads = (stuck l t₂ c.responsive b.queue b.begins).reads;
        sent = (stuck l t₂ c.responsive b.queue b.begins).sent;
      };
      runs = rw (a.runs, b.runs, check_out-stopped l t₂ c.responsive b.queue b.begins) refl;
      error = refl;
    }
