-- ===== src/Support/Calls.antt =====
-- phase3/vmIOsupport.c: the system calls and the program traps of user processes.
pub mod Release
pub mod Chars
pub mod Write
pub mod Refuse
use patrick_landon_os.Support.Tables.{null_entry}
use patrick_landon_os.Support.Vm.{
  Act, Places, ldst, pure, ◌>>=◌, ◌>>◌, read, when, leave, syscall, end_with, write_register,
  tlbclr, put, load_uproc, modify_uproc, load_swap, modify_swap, dev_sem,
}
use patrick_landon_os.Support.Disk.{disable_ints, t_transm_command_of, get_device_reg}
use patrick_landon_os.Const.{
  passeren, terminate, dev_cnt, pool_size, verhogen, terminate_process, sys_trap, term_int,
  dev_int_offset, write_terminal, term_cnt, kseg_os_end, transm_char, wait_io, char_transmd,
}
use patrick_landon_os.Base.{
  ◌-w◌, Word, ℕ, sar, shl, suc, ◌*◌, true, ◌==◌, ◌-◌, if◌then◌else◌, ◌+w◌, is_neg, ◌||◌, ◌*w◌, ltb,
  bit_or, false, not, zero, ◌+◌,
}
use patrick_landon_os.Types.{reg, s_a1, s_a0, s_a2, set_reg, s_v0}
use patrick_landon_os.Support.Terminate.{asid_int_of, terminate_user_proc, terminate_call}

-- The loop of `writeToTerminal`, with `n` characters left; the status that it ends with.
unfoldable pub write_loop : (asid virt_addr : Word) → ℕ → (i status : Word) → Act Word
unfolding disable_ints
write_loop asid virt_addr zero i status = pure status
write_loop asid virt_addr (suc n) i status = do
  disable_ints true
  c ← read (λ m. m.chars (virt_addr +w i))
  write_register (t_transm_command_of (get_device_reg term_int (asid -w 1)))
      (bit_or (shl c 8) transm_char)
  status' ← syscall wait_io term_int (asid -w 1) 0
  disable_ints false
  if not (status' == char_transmd)
      then pure (0 -w status')
      else write_loop asid virt_addr n (i +w 1) i

-- `(DEVCNT*(TERMINT-DEVINTOFFSET))+(TERMCNT*(asid-1))`
abbrev pub terminal_index : Word → Word
terminal_index asid = dev_cnt * (term_int - dev_int_offset) +w term_cnt *w (asid -w 1)

unfoldable pub write_to_terminal : Places → Act (Unit {0})
unfolding write_loop terminate_user_proc
write_to_terminal l = do
  asid ← read (λ m. asid_int_of m.entry_hi)
  u ← load_uproc (asid -w 1)
  let virt_addr = reg s_a1 (u.u_old_trap sys_trap)
  let len = reg s_a2 (u.u_old_trap sys_trap)
  when (is_neg len || ltb 128 len || ltb virt_addr kseg_os_end) (terminate_user_proc l)
  syscall passeren (dev_sem l (terminal_index asid)) 0 0
  start ← read (λ m. m.uninit)
  status ← write_loop asid virt_addr len 0 start
  syscall verhogen (dev_sem l (terminal_index asid)) 0 0
  modify_uproc (asid -w 1) (λ u. record u {
    u_old_trap = put u.u_old_trap sys_trap (set_reg s_v0 status (u.u_old_trap sys_trap));
  })
  u' ← load_uproc (asid -w 1)
  leave (ldst (u'.u_old_trap sys_trap))

unfoldable pub user_syscall_handler : Places → Act (Unit {0})
unfolding write_to_terminal terminate_user_proc
user_syscall_handler l = do
  asid ← read (λ m. asid_int_of m.entry_hi)
  u ← load_uproc (asid -w 1)
  let call = reg s_a0 (u.u_old_trap sys_trap)
  if call == write_terminal
      then write_to_terminal l
      else if call == terminate
      then terminate_user_proc l
      else terminate_user_proc l

unfoldable pub user_prog_trap_handler : Places → Act (Unit {0})
unfolding terminate_call
user_prog_trap_handler l = terminate_call l
