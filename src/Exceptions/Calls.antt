-- ===== src/Exceptions/Calls.antt =====
-- phase2/exceptions.c: the eight system calls of the nucleus. `state` is the address of the state
-- that made the call.
use patrick_landon_os.Base.{◌*◌, not, Word, ◌+w◌, ◌-w◌, is_neg, is_npos, ltb, ◌==◌, if◌then◌else◌}
use patrick_landon_os.Machine.Memory.{Ptr, null}
use patrick_landon_os.Types.{Pcb, reg, set_reg, s_v0, s_a1, s_a2, s_a3}
use patrick_landon_os.Const.{
  success, fail, tlb_trap, prog_trap, sys_trap, disk_int, term_int, dev_int_offset, dev_cnt,
  term_cnt,
}
use patrick_landon_os.Layout.{Layout, sem_dev_addr, clock_addr}
use patrick_landon_os.CopyState.{copy_state}
use patrick_landon_os.Machine.{
  Cmd, ldst, pure, leave, read, change, when, ◌>>=◌, ◌>>◌, load_pcb, modify_pcb, load_int,
  modify_int, load_state, modify_state,
}
use patrick_landon_os.Pcb.Queue.{insert_proc_q}
use patrick_landon_os.Pcb.FreeList.{alloc_pcb}
use patrick_landon_os.Pcb.Tree.{insert_child}
use patrick_landon_os.Asl.{insert_blocked, remove_blocked}
use patrick_landon_os.Scheduler.{stck, scheduler}
use patrick_landon_os.Exceptions.Terminate.{terminateprocess, terminate_fuel}

-- `LDST(state)`
abbrev pub load_and_go : Ptr → Cmd (Unit {0})
load_and_go state = do s ← load_state state; leave (ldst s)

-- `insertProcQ(&readyQue, p)`
abbrev pub make_ready : Ptr → Cmd (Unit {0})
make_ready p = do
  queue ← read (λ m. m.ready_que)
  tail ← insert_proc_q queue p
  change (λ m. record m { ready_que = tail })

-- `terminateprocess(currentProc); scheduler();`
abbrev pub die : Layout → Cmd (Unit {0})
die l = do
  current ← read (λ m. m.current_proc)
  terminateprocess l terminate_fuel current
  scheduler

-- SYSCALL 1
unfoldable pub createprocess : Ptr → Cmd (Unit {0})
createprocess state = do
  p ← alloc_pcb
  if p == null then modify_state state (set_reg s_v0 fail) else (do
    s ← load_state state
    start ← load_state (reg s_a1 s)
    modify_pcb p (λ c. record c { p_s = copy_state start c.p_s })
    current ← read (λ m. m.current_proc)
    insert_child current p
    make_ready p
    change (λ m. record m { proc_cnt = m.proc_cnt +w 1 })
    modify_state state (set_reg s_v0 success))
  load_and_go state

-- SYSCALL 3
unfoldable pub V : Ptr → Cmd (Unit {0})
V state = do
  s ← load_state state
  let sem = reg s_a1 s
  modify_int sem (λ v. v +w 1)
  value ← load_int sem
  when (is_npos value) (do temp ← remove_blocked sem; when (not (temp == null)) (make_ready temp))
  load_and_go state

-- The time that the running process used since it was loaded, less that of the interrupt handler.
unfoldable pub charge : Cmd (Unit {0})
charge = do
  now ← stck
  m ← read (λ m. m)
  modify_pcb m.current_proc
      (λ c. record c { p_time = c.p_time +w ((now -w m.start_tod) -w m.io_proc_time) })

-- The running process is charged, keeps the state of its call, and waits on `sem`.
unfoldable pub block_on : (sem state : Ptr) → Cmd (Unit {0})
unfolding charge
block_on sem state = do
  charge
  s ← load_state state
  current ← read (λ m. m.current_proc)
  modify_pcb current (λ c. record c { p_s = copy_state s c.p_s })
  insert_blocked sem current
  pure tt

abbrev pub count_blocked : Cmd (Unit {0})
count_blocked = change (λ m. record m { sft_blk_cnt = m.sft_blk_cnt +w 1 })

abbrev pub drop_current : Cmd (Unit {0})
drop_current = change (λ m. record m { current_proc = null })

-- SYSCALL 4
unfoldable pub P : Ptr → Cmd (Unit {0})
unfolding block_on
P state = do
  s ← load_state state
  let sem = reg s_a1 s
  modify_int sem (λ v. v -w 1)
  value ← load_int sem
  when (is_neg value) (do block_on sem state; drop_current; scheduler)
  load_and_go state

-- One case of SYSCALL 5: `unset` reads the new area, and `fill` sets both.
abbrev set_trap : (Pcb → Ptr) → (Pcb → Pcb) → Ptr → Cmd (Unit {0})
set_trap new_area fill state = do
  current ← read (λ m. m.current_proc)
  c ← load_pcb current
  when (new_area c == null) (do modify_pcb current fill; load_and_go state)

-- SYSCALL 5
unfoldable pub spectrapvec : Layout → Ptr → Cmd (Unit {0})
spectrapvec l state = do
  s ← load_state state
  let type = reg s_a1 s
  let old = reg s_a2 s
  let new = reg s_a3 s
  if type == tlb_trap
      then set_trap (λ c. c.p_new_tlb) (λ c. record c { p_old_tlb = old; p_new_tlb = new }) state
      else if type == prog_trap
      then set_trap (λ c. c.p_new_pgm) (λ c. record c { p_old_pgm = old; p_new_pgm = new }) state
      else if type == sys_trap
      then set_trap (λ c. c.p_new_sys) (λ c. record c { p_old_sys = old; p_new_sys = new }) state
      else pure tt
  die l

-- SYSCALL 6
unfoldable pub getcputime : Ptr → Cmd (Unit {0})
getcputime state = do
  now ← stck
  m ← read (λ m. m)
  c ← load_pcb m.current_proc
  modify_state state (set_reg s_v0 ((c.p_time +w (now -w m.start_tod)) -w m.io_proc_time))
  load_and_go state

-- SYSCALL 7
unfoldable pub waitforclock : Layout → Ptr → Cmd (Unit {0})
unfolding block_on
waitforclock l state = do
  let sem = clock_addr l
  modify_int sem (λ v. v -w 1)
  value ← load_int sem
  when (is_neg value) (do block_on sem state; count_blocked; drop_current; scheduler)
  load_and_go state

-- The index in `semDevArray` of a device that SYSCALL 8 waits for.
unfoldable pub wait_index : (line_no dev_no read : Word) → Word
wait_index line_no dev_no read =
    if not (line_no == term_int)
    then (dev_cnt * (line_no -w dev_int_offset)) +w dev_no
    else ((dev_cnt * (line_no -w dev_int_offset)) +w (term_cnt * dev_no)) +w read

-- SYSCALL 8
unfoldable pub waitio : Layout → Ptr → Cmd (Unit {0})
unfolding block_on wait_index
waitio l state = do
  s ← load_state state
  let line_no = reg s_a1 s
  when (ltb line_no disk_int) (die l)
  let sem = sem_dev_addr l (wait_index line_no (reg s_a2 s) (reg s_a3 s))
  modify_int sem (λ v. v -w 1)
  value ← load_int sem
  when (is_neg value) (do block_on sem state; count_blocked; drop_current; scheduler)
  load_and_go state
