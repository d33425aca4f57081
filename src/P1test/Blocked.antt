-- ===== src/P1test/Blocked.antt =====
-- `main` of phase1/p1test.c: the semaphores.
use patrick_landon_os.Base.{ℕ, zero, suc, ◌+◌, ◌*◌, ◌-◌, not, List, ◌==◌}
use patrick_landon_os.Const.{sizeof_int}
use patrick_landon_os.Machine.Memory.{Ptr, null}
use patrick_landon_os.Pcb.FreeList.{alloc_pcb}
use patrick_landon_os.Asl.{init_asl, insert_blocked, remove_blocked, out_blocked, head_blocked}
use patrick_landon_os.P1test.{
  Places, Step, pure, ◌>>=◌, ◌>>◌, read, change, when, call, codes, addokbuf, adderrbuf,
}
use patrick_landon_os.P1test.Queues.{set_procp, set_q}

-- `&sem[i]`
abbrev pub sem_addr : Places → ℕ → Ptr
sem_addr l i = l.sem + sizeof_int * i

unfoldable pub block_loop : Places → List ℕ → ℕ → ℕ → Step (Unit {0})
block_loop l error zero i = pure tt
block_loop l error (suc n) i = do
  a ← call alloc_pcb
  set_procp i a
  full ← call (insert_blocked (sem_addr l i) a)
  when full (adderrbuf l error)
  block_loop l error n (i + 1)

unfoldable pub move_loop : Places → ℕ → ℕ → Step (Unit {0})
move_loop l zero i = pure tt
move_loop l (suc n) i = do
  a ← call (remove_blocked (sem_addr l i))
  set_q a
  when (a == null) (adderrbuf l (codes "removeBlocked: wouldn't remove   "))
  mine ← read (λ t. t.procp i)
  when (not (a == mine)) (adderrbuf l (codes "removeBlocked: removed wrong element   "))
  full ← call (insert_blocked (sem_addr l (i - 10)) a)
  when full (adderrbuf l (codes "insertBlocked(3): unexpected TRUE   "))
  move_loop l n (i + 1)

unfoldable pub check_blocked : Places → Step (Unit {0})
check_blocked l = do
  call (init_asl l.semd_arr)
  addokbuf l (codes "Initialized active semaphore list   \n")
  addokbuf l (codes "insertBlocked test #1 started  \n")
  block_loop l (codes "insertBlocked(1): unexpected TRUE   ") 10 10
  addokbuf l (codes "insertBlocked test #2 started  \n")
  block_loop l (codes "insertBlocked(2): unexpected TRUE   ") 10 0
  p ← call (remove_blocked (sem_addr l 11))
  change (λ t. record t { p = p })
  full ← call (insert_blocked (sem_addr l 11) p)
  when full (adderrbuf l (codes "removeBlocked: fails to return to free list   "))
  last ← read (λ t. t.procp 9)
  full' ← call (insert_blocked l.onesem last)
  when (not full') (adderrbuf l (codes "insertBlocked: inserted more than MAXPROC   "))
  addokbuf l (codes "removeBlocked test started   \n")
  move_loop l 10 10
  none ← call (remove_blocked (sem_addr l 11))
  when (not (none == null))
      (adderrbuf l (codes "removeBlocked: removed nonexistent blocked proc   "))
  addokbuf l (codes "insertBlocked and removeBlocked ok   \n")

-- `p = outBlocked(a)`
abbrev pub out_p : Ptr → Step Ptr
out_p a = do p ← call (out_blocked a); change (λ t. record t { p = p }); pure p

unfoldable pub check_head : Places → Step (Unit {0})
check_head l = do
  none ← call (head_blocked (sem_addr l 11))
  when (not (none == null)) (adderrbuf l (codes "headBlocked: nonNULL for a nonexistent queue   "))
  q ← call (head_blocked (sem_addr l 9))
  set_q q
  when (q == null) (adderrbuf l (codes "headBlocked(1): NULL for an existent queue   "))
  t ← read (λ t. t)
  when (not (q == t.procp 9)) (adderrbuf l (codes "headBlocked(1): wrong process returned   "))
  p ← out_p q
  when (not (p == q)) (adderrbuf l (codes "outBlocked(1): couldn't remove from valid queue   "))
  q' ← call (head_blocked (sem_addr l 9))
  set_q q'
  when (q' == null) (adderrbuf l (codes "headBlocked(2): NULL for an existent queue   "))
  when (not (q' == t.procp 19)) (adderrbuf l (codes "headBlocked(2): wrong process returned   "))
  p' ← out_p q'
  when (not (p' == q')) (adderrbuf l (codes "outBlocked(2): couldn't remove from valid queue   "))
  p'' ← out_p q'
  when (not (p'' == null)) (adderrbuf l (codes "outBlocked: removed same process twice."))
  rest ← call (head_blocked (sem_addr l 9))
  when (not (rest == null)) (adderrbuf l (codes "out/headBlocked: unexpected nonempty queue   "))
  addokbuf l (codes "headBlocked and outBlocked ok   \n")
  addokbuf l (codes "ASL module ok   \n")
  addokbuf l (codes "So Long and Thanks for All the Fish\n")
