-- ===== src/P1test/Fails/Fill.antt =====
-- The second part of the test program: the queue of ten.
use patrick_landon_os.Base.{
  ℕ, ◌+◌, ◌<◌, ◌≡◌, refl, List, [], ◌++◌, length, Word, arith, length-append,
}
use patrick_landon_os.Types.{Pcb}
use patrick_landon_os.Machine.Memory.{Ptr, Store, null}
use patrick_landon_os.Pcb.FreeList.{pcb_addr}
use patrick_landon_os.Pcb.FreeList.Chain.{HasRegs, IsFreeList}
use patrick_landon_os.Pcb.Queue.Links.{IsQueue}
use patrick_landon_os.P1test.{Test, Places, done, codes}
use patrick_landon_os.P1test.Queues.{fill_queue}
use patrick_landon_os.P1test.Says.{IsResponsive, Said, addokbuf-Said}
use patrick_landon_os.P1test.Insert.{AllQueued, insert_loop-AllQueued}
use patrick_landon_os.P1test.Fails.Free.{ten, Disjoint-nil}

-- What the second part leaves behind.
pub record Filled (l : Places) (t : Test) : Type 0 where
  pub heap : Store Pcb
  pub head : Ptr
  pub tail : Ptr
  pub now : Ptr
  pub mid : Ptr
  pub last : Ptr
  pub first : Ptr
  pub said : List ℕ
  pub reads : ℕ
  pub sent : List (Word × Word)
  pub runs :
      fill_queue l t
      ≡ done tt (record t {
        kernel = record t.kernel { pcbs = heap; pcb_free_h = head };
        qa = tail;
        q = now;
        firstproc = first;
        midproc = mid;
        lastproc = last;
        okbuf = said;
        stat_reads = reads;
        sent = sent;
      })
  pub queue : IsQueue heap tail (ten l)
  pub begins : first ≡ pcb_addr l.pcb_arr 0

module _ (l : Places) (t : Test) (responsive : IsResponsive l t.stat)
    (room : length t.okbuf + 100 < 2048) (f : IsFreeList t.kernel (ten l))
    (regs : HasRegs t.kernel.pcbs) where
  abbrev empty : Test
  empty = record t { qa = null }

  abbrev inserting : List ℕ
  inserting = codes "Inserting...   \n"

  hello : Said l inserting empty
  hello = addokbuf-Said l inserting empty responsive (omega (arith, room))

  abbrev t₁ : Test
  t₁ = record empty { okbuf = t.okbuf ++ inserting; stat_reads = hello.reads; sent = hello.sent }

  queued : AllQueued l 0 (ten l) [] t₁
  queued =
      insert_loop-AllQueued l 0 (ten l) [] t₁ (record { chain = f.chain; distinct = f.distinct })
        regs (record { tail = refl; links = tt; distinct = tt; lives = λ a mem. cc })
        (Disjoint-nil (ten l))

  abbrev t₂ : Test
  t₂ = record t₁ {
    kernel = record t.kernel { pcbs = queued.heap; pcb_free_h = queued.head };
    qa = queued.tail;
    q = queued.now;
    firstproc = queued.first;
    midproc = queued.mid;
    lastproc = queued.last;
  }

  abbrev inserted : List ℕ
  inserted = codes "inserted 10 elements   \n"

  second : Said l inserted t₂
  second =
      addokbuf-Said l inserted t₂ responsive (omega (arith, room, length-append t.okbuf inserting))

  pub fill_queue-Filled : Filled l t
  unfolding fill_queue
  fill_queue-Filled = record {
    heap = queued.heap;
    head = queued.head;
    tail = queued.tail;
    now = queued.now;
    mid = queued.mid;
    last = queued.last;
    first = queued.first;
    said = t₂.okbuf ++ inserted;
    reads = second.reads;
    sent = second.sent;
    runs = rw (hello.runs, queued.runs, second.runs) refl;
    queue = queued.queue;
    begins = queued.begins refl;
  }
