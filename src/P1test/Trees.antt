-- ===== src/P1test/Trees.antt =====
-- `main` of phase1/p1test.c: the process tree.
use patrick_landon_os.Base.{ℕ, zero, suc, ◌+◌, not, ◌==◌, ◌||◌}
use patrick_landon_os.Machine.Memory.{Ptr, null}
use patrick_landon_os.Pcb.Tree.{empty_child, insert_child, remove_child, out_child}
use patrick_landon_os.P1test.{
  Places, Step, pure, ◌>>=◌, ◌>>◌, read, when, call, codes, addokbuf, adderrbuf,
}
use patrick_landon_os.P1test.Queues.{set_q, free_loop}

-- `procp[i]` for each of the indices `i` to `i + n`, as a child of `procp[0]`.
unfoldable pub child_loop : ℕ → ℕ → Step (Unit {0})
child_loop zero i = pure tt
child_loop (suc n) i = do
  t ← read (λ t. t)
  call (insert_child (t.procp 0) (t.procp i))
  child_loop n (i + 1)

unfoldable pub orphan_loop : Places → ℕ → Step (Unit {0})
orphan_loop l zero = pure tt
orphan_loop l (suc n) = do
  parent ← read (λ t. t.procp 0)
  a ← call (remove_child parent)
  set_q a
  when (a == null) (adderrbuf l (codes "removeChild: unexpected NULL   "))
  orphan_loop l n

-- `q = outChild(procp[i])`
abbrev pub out_child_at : ℕ → Step Ptr
out_child_at i = do child ← read (λ t. t.procp i); call (out_child child)

unfoldable pub check_tree : Places → Step (Unit {0})
check_tree l = do
  addokbuf l (codes "checking process trees...\n")
  t ← read (λ t. t)
  childless ← call (empty_child (t.procp 2))
  when (not childless) (adderrbuf l (codes "emptyChild: unexpected FALSE   "))
  addokbuf l (codes "Inserting...   \n")
  child_loop 9 1
  addokbuf l (codes "Inserted 9 children   \n")
  childless' ← call (empty_child (t.procp 0))
  when childless' (adderrbuf l (codes "emptyChild: unexpected TRUE   "))
  q ← out_child_at 1
  set_q q
  when (q == null || not (q == t.procp 1)) (adderrbuf l (codes "outChild failed on first child   "))
  q' ← out_child_at 4
  set_q q'
  when (q' == null || not (q' == t.procp 4))
      (adderrbuf l (codes "outChild failed on middle child   "))
  none ← out_child_at 0
  when (not (none == null)) (adderrbuf l (codes "outChild failed on nonexistent child   "))
  addokbuf l (codes "outChild ok   \n")
  addokbuf l (codes "Removing...   \n")
  orphan_loop l 7
  extra ← call (remove_child (t.procp 0))
  when (not (extra == null)) (adderrbuf l (codes "removeChild: removes too many children   "))
  childless'' ← call (empty_child (t.procp 0))
  when (not childless'') (adderrbuf l (codes "emptyChild: unexpected FALSE   "))
  addokbuf l (codes "insertChild, removeChild and emptyChild ok   \n")
  addokbuf l (codes "process tree module ok      \n")
  free_loop 10 0
