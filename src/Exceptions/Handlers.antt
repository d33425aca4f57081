-- ===== src/Exceptions/Handlers.antt =====
-- phase2/exceptions.c: the handlers of system calls, program traps and TLB traps.
use patrick_landon_os.Base.{◌&&◌, Word, ◌+w◌, bit_and, bit_or, leb, ◌==◌, if◌then◌else◌}
use patrick_landon_os.Machine.Memory.{Ptr, null}
use patrick_landon_os.Types.{State, Pcb, reg, s_a0}
use patrick_landon_os.Const.{
  syscall_old, prog_trap_old, tlb_mgmt_old, kernel_off, cause_reg_mask, reserved_instr, word_len,
  create_process, terminate_process, verhogen, passeren, spec_trap_vec, get_cpu_time, wait_clock,
  wait_io,
}
use patrick_landon_os.Layout.{Layout}
use patrick_landon_os.CopyState.{copy_state}
use patrick_landon_os.Machine.{Cmd, read, when, ◌>>=◌, ◌>>◌, load_pcb, load_state, modify_state}
use patrick_landon_os.Exceptions.Calls.{
  load_and_go, die, createprocess, V, P, spectrapvec, getcputime, waitforclock, waitio,
}

-- The handler `new` of the process gets the state saved at `trap_loc`, in `old`.
unfoldable pub p_uo_d_helper : Layout → (new old trap_loc : Ptr) → Cmd (Unit {0})
p_uo_d_helper l new old trap_loc = do
  when (new == null) (die l)
  trap ← load_state trap_loc
  modify_state old (copy_state trap)
  load_and_go new

-- The three types of trap, `TLBTRAP`, `PROGTRAP` and `SYSTRAP`.
pub data Trap : Type 0 where
  tlb prog sys : Trap

abbrev pub trap_areas : Trap → Pcb → Ptr × Ptr × Ptr
trap_areas tlb c = (c.p_new_tlb, c.p_old_tlb, tlb_mgmt_old)
trap_areas prog c = (c.p_new_pgm, c.p_old_pgm, prog_trap_old)
trap_areas sys c = (c.p_new_sys, c.p_old_sys, syscall_old)

unfoldable pub pass_up_or_die : Layout → Trap → Cmd (Unit {0})
unfolding p_uo_d_helper
pass_up_or_die l type = do
  current ← read (λ m. m.current_proc)
  c ← load_pcb current
  let areas = trap_areas type c
  p_uo_d_helper l areas.0 areas.1 areas.2

unfoldable pub prog_trap_handler : Layout → Cmd (Unit {0})
unfolding pass_up_or_die
prog_trap_handler l = pass_up_or_die l prog

unfoldable pub tlb_trap_handler : Layout → Cmd (Unit {0})
unfolding pass_up_or_die
tlb_trap_handler l = pass_up_or_die l tlb

-- The switch of `sysCallHandler`.
unfoldable pub handle_call : Layout → Word → Cmd (Unit {0})
unfolding pass_up_or_die
handle_call l call =
    if call == create_process
    then createprocess syscall_old
    else if call == terminate_process
    then die l
    else if call == verhogen
    then V syscall_old
    else if call == passeren
    then P syscall_old
    else if call == spec_trap_vec
    then spectrapvec l syscall_old
    else if call == get_cpu_time
    then getcputime syscall_old
    else if call == wait_clock
    then waitforclock l syscall_old
    else if call == wait_io
    then waitio l syscall_old
    else pass_up_or_die l sys

-- `10 << 2` as the code of the cause, the other bits kept.
abbrev pub reserved : State → State
reserved s = record s { s_cause = bit_or (bit_and s.s_cause cause_reg_mask) reserved_instr }

unfoldable pub sys_call_handler : Layout → Cmd (Unit {0})
unfolding handle_call prog_trap_handler
sys_call_handler l = do
  old_sys ← load_state syscall_old
  let call = reg s_a0 old_sys
  when (bit_and old_sys.s_status kernel_off == kernel_off && leb call 8)
      (do modify_state prog_trap_old (λ s. reserved (copy_state old_sys s)); prog_trap_handler l)
  modify_state syscall_old (λ s. record s { s_pc = s.s_pc +w word_len })
  handle_call l call
