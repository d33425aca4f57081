-- ===== src/P1test/Queues.antt =====
-- `main` of phase1/p1test.c: the free list and the process queues.
use patrick_landon_os.Base.{ℕ, zero, suc, ◌+◌, not, ◌==◌, ◌||◌, if◌then◌else◌}
use patrick_landon_os.Const.{max_proc}
use patrick_landon_os.Machine.Memory.{Ptr, null}
use patrick_landon_os.Pcb.FreeList.{init_pcbs, alloc_pcb, free_pcb}
use patrick_landon_os.Pcb.Queue.{
  insert_proc_q, remove_proc_q, out_proc_q, head_proc_q, empty_proc_q,
}
use patrick_landon_os.P1test.{
  Test, Places, Step, pure, ◌>>=◌, ◌>>◌, read, change, when, call, codes, addokbuf, adderrbuf,
}

abbrev pub put_proc : (ℕ → Ptr) → ℕ → Ptr → ℕ → Ptr
put_proc g i a k = if k == i then a else g k

abbrev pub set_procp : ℕ → Ptr → Step (Unit {0})
set_procp i a = change (λ t. record t { procp = put_proc t.procp i a })

-- `q = e`
abbrev pub set_q : Ptr → Step (Unit {0})
set_q a = change (λ t. record t { q = a })

unfoldable pub alloc_loop : Places → ℕ → ℕ → Step (Unit {0})
alloc_loop l zero i = pure tt
alloc_loop l (suc n) i = do
  a ← call alloc_pcb
  set_procp i a
  when (a == null) (adderrbuf l (codes "allocPcb: unexpected NULL   "))
  alloc_loop l n (i + 1)

unfoldable pub free_loop : ℕ → ℕ → Step (Unit {0})
free_loop zero i = pure tt
free_loop (suc n) i = do a ← read (λ t. t.procp i); call (free_pcb a); free_loop n (i + 1)

-- The `switch` of the loop that fills the queue.
abbrev pub note_proc : ℕ → Ptr → Test → Test
note_proc i a t = record t {
  firstproc = (if i == 0 then a else t.firstproc);
  midproc = (if i == 5 then a else t.midproc);
  lastproc = (if i == 9 then a else t.lastproc);
}

unfoldable pub insert_loop : Places → ℕ → ℕ → Step (Unit {0})
insert_loop l zero i = pure tt
insert_loop l (suc n) i = do
  a ← call alloc_pcb
  set_q a
  when (a == null) (adderrbuf l (codes "allocPcb: unexpected NULL while insert   "))
  change (note_proc i a)
  qa ← read (λ t. t.qa)
  tail ← call (insert_proc_q qa a)
  change (λ t. record t { qa = tail })
  insert_loop l n (i + 1)

-- The allocation of all blocks, and ten of them given back.
unfoldable pub check_alloc : Places → Step (Unit {0})
check_alloc l = do
  call (init_pcbs l.pcb_arr)
  addokbuf l (codes "Initialized process control blocks   \n")
  alloc_loop l max_proc 0
  a ← call alloc_pcb
  when (not (a == null)) (adderrbuf l (codes "allocPcb: allocated more than MAXPROC entries   "))
  addokbuf l (codes "allocPcb ok   \n")
  free_loop 10 10
  addokbuf l (codes "freed 10 entries   \n")

-- A queue of ten.
unfoldable pub fill_queue : Places → Step (Unit {0})
fill_queue l = do
  change (λ t. record t { qa = null })
  empty ← read (λ t. empty_proc_q t.qa)
  when (not empty) (adderrbuf l (codes "emptyProcQ: unexpected FALSE   "))
  addokbuf l (codes "Inserting...   \n")
  insert_loop l 10 0
  addokbuf l (codes "inserted 10 elements   \n")

-- `q = outProcQ(&qa, a)`
abbrev pub out_of_qa : Ptr → Step Ptr
out_of_qa a = do
  qa ← read (λ t. t.qa)
  (found, tail) ← call (out_proc_q qa a)
  change (λ t. record t { qa = tail })
  pure found

unfoldable pub check_out : Places → Step (Unit {0})
check_out l = do
  filled ← read (λ t. t)
  when (empty_proc_q filled.qa) (adderrbuf l (codes "emptyProcQ: unexpected TRUE"))
  head ← call (head_proc_q filled.qa)
  when (not (head == filled.firstproc)) (adderrbuf l (codes "headProcQ failed   "))
  q ← out_of_qa filled.firstproc
  set_q q
  when (q == null || not (q == filled.firstproc))
      (adderrbuf l (codes "outProcQ failed on first entry   "))
  call (free_pcb q)
  mid ← read (λ t. t.midproc)
  q' ← out_of_qa mid
  set_q q'
  when (q' == null || not (q' == mid)) (adderrbuf l (codes "outProcQ failed on middle entry   "))
  call (free_pcb q')
  other ← read (λ t. t.procp 0)
  none ← out_of_qa other
  when (not (none == null)) (adderrbuf l (codes "outProcQ failed on nonexistent entry   "))
  addokbuf l (codes "outProcQ ok   \n")

-- `removeProcQ(&qa)`
abbrev pub remove_from_qa : Step Ptr
remove_from_qa = do
  qa ← read (λ t. t.qa)
  (head, tail) ← call (remove_proc_q qa)
  change (λ t. record t { qa = tail })
  pure head

unfoldable pub remove_loop : Places → ℕ → Step (Unit {0})
remove_loop l zero = pure tt
remove_loop l (suc n) = do
  a ← remove_from_qa
  set_q a
  when (a == null) (adderrbuf l (codes "removeProcQ: unexpected NULL   "))
  call (free_pcb a)
  remove_loop l n

unfoldable pub check_remove : Places → Step (Unit {0})
check_remove l = do
  addokbuf l (codes "Removing...   \n")
  remove_loop l 8
  t ← read (λ t. t)
  when (not (t.q == t.lastproc)) (adderrbuf l (codes "removeProcQ: failed on last entry   "))
  none ← remove_from_qa
  when (not (none == null)) (adderrbuf l (codes "removeProcQ: removes too many entries   "))
  empty ← read (λ t. empty_proc_q t.qa)
  when (not empty) (adderrbuf l (codes "emptyProcQ: unexpected FALSE   "))
  addokbuf l (codes "insertProcQ, removeProcQ and emptyProcQ ok   \n")
  addokbuf l (codes "process queues module ok      \n")
