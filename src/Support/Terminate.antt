-- ===== src/Support/Terminate.antt =====
-- phase3/vmIOsupport.c: `terminateUserProc`, the end of a user process, and the call that leads to it.
use patrick_landon_os.Support.Tables.{null_entry}
use patrick_landon_os.Support.Vm.{
  Act, Places, pure, ◌>>=◌, ◌>>◌, read, change, when, syscall, end_with, tlbclr, load_swap,
  modify_swap, take_pool, give_pool, log, call,
}
use patrick_landon_os.Const.{pool_size, verhogen, terminate_process, terminate}
use patrick_landon_os.Base.{ℕ, zero, suc, ◌+◌, Word, sar, shl, ◌==◌, ◌-w◌}

-- `asid = getENTRYHI(); asid = (asid << 20); asid = (asid >> 26);` on `int`.
abbrev pub asid_int_of : Word → Word
asid_int_of entry_hi = sar (shl entry_hi 20) 26

abbrev pub no_asid : Word
no_asid = 0 -w 1

-- Frames of the process are given up.
unfoldable pub release_loop : (asid : Word) → ℕ → ℕ → Act (Unit {0})
release_loop asid zero i = pure tt
release_loop asid (suc n) i = do
  e ← load_swap i
  when (e.sp_asid == asid) (
      modify_swap i (λ e. record e {
        sp_asid = no_asid;
        sp_page_no = 0;
        sp_seg_no = 0;
        sp_pte_entry = null_entry;
      }))
  release_loop asid n (i + 1)

unfoldable pub terminate_user_proc : Places → Act (Unit {0})
unfolding release_loop take_pool give_pool
terminate_user_proc l = do
  asid ← read (λ m. asid_int_of m.entry_hi)
  take_pool l
  release_loop asid pool_size 0
  tlbclr
  give_pool l
  syscall verhogen l.master_sem_addr 0 0
  end_with terminate_process

-- `SYSCALL(TERMINATE, 0, 0, 0)`: the kernel passes the call up to `userSyscallHandler` of the process,
-- whose switch goes to `terminateUserProc`; what was saved of the caller is not read again.
unfoldable pub terminate_call : Places → Act (Unit {0})
unfolding terminate_user_proc
terminate_call l = do change (log (call terminate 0 0 0)); terminate_user_proc l
