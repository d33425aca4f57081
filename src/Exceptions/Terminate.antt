-- ===== src/Exceptions/Terminate.antt =====
-- phase2/exceptions.c: `terminateprocess`, which ends a process and all its descendants.
use patrick_landon_os.Base.{ℕ, zero, suc, ◌*◌, not, ◌&&◌, ◌+w◌, ◌-w◌, leb, ◌==◌, if◌then◌else◌}
use patrick_landon_os.Machine.Memory.{Ptr, null}
use patrick_landon_os.Const.{max_proc}
use patrick_landon_os.Layout.{Layout, sem_dev_addr, clock_addr}
use patrick_landon_os.Machine.{
  Cmd, pure, starve, read, change, when, ◌>>=◌, ◌>>◌, load_pcb, modify_int,
}
use patrick_landon_os.Pcb.Queue.{out_proc_q}
use patrick_landon_os.Pcb.FreeList.{free_pcb}
use patrick_landon_os.Pcb.Tree.{empty_child, remove_child, out_child}
use patrick_landon_os.Asl.{out_blocked}

module _ (l : Layout) where
  -- The device semaphores are counted when a process leaves one; any other is incremented.
  abbrev pub leave_sem : Ptr → Cmd (Unit {0})
  leave_sem sem_add =
      if leb (sem_dev_addr l 0) sem_add && leb sem_add (clock_addr l)
      then change (λ m. record m { sft_blk_cnt = m.sft_blk_cnt -w 1 })
      else modify_int sem_add (λ v. v +w 1)

  -- Takes the process off the CPU, off the ready queue or off its semaphore.
  unfoldable pub take_off : (p sem_add : Ptr) → Cmd (Unit {0})
  take_off p sem_add = do
    current ← read (λ m. m.current_proc)
    if p == current then (do out_child p; change (λ m. record m { current_proc = null })) else (do
      queue ← read (λ m. m.ready_que)
      (found, tail) ← out_proc_q queue p
      change (λ m. record m { ready_que = tail })
      when (found == null)
          (do blocked ← out_blocked p; when (not (blocked == null)) (leave_sem sem_add)))

  unfoldable mutual
    unfolding take_off

    pub terminateprocess : ℕ → Ptr → Cmd (Unit {0})
    terminateprocess zero p = starve
    terminateprocess (suc k) p = do
      c ← load_pcb p
      kill_children k p
      take_off p c.p_sem_add
      change (λ m. record m { proc_cnt = m.proc_cnt -w 1 })
      free_pcb p

    -- while(emptyChild(p) != TRUE) terminateprocess(removeChild(p));
    pub kill_children : ℕ → Ptr → Cmd (Unit {0})
    kill_children zero p = starve
    kill_children (suc k) p = do
      done ← empty_child p
      if done
          then pure tt
          else do child ← remove_child p; terminateprocess k child; kill_children k p

-- More than any path of calls through a tree of `MAXPROC` processes uses.
abbrev pub terminate_fuel : ℕ
terminate_fuel = 3 * max_proc
