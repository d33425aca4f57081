-- ===== src/Initial.antt =====
-- phase2/initial.c: `main`, which sets up the kernel and starts the first process.
pub mod Clear
pub mod Areas
pub mod Stages
pub mod Boot
use patrick_landon_os.Base.{ℕ, zero, suc, ◌+◌, Word, ◌+w◌, ◌-w◌, bit_or}
use patrick_landon_os.Machine.Memory.{null}
use patrick_landon_os.Types.{State, set_reg, s_t9, s_sp}
use patrick_landon_os.Const.{
  syscall_new, prog_trap_new, tlb_mgmt_new, inter_new, all_off, ploc_time_on, inter_on,
  inter_unmasked, vm_not_on, kernel_on, page_size, device_cnt, interval,
}
use patrick_landon_os.Layout.{Layout, sem_dev_addr}
use patrick_landon_os.Machine.{
  Cmd, pure, read, change, ◌>>=◌, ◌>>◌, modify_pcb, modify_int, modify_state,
}
use patrick_landon_os.Pcb.Queue.{mk_empty_proc_q}
use patrick_landon_os.Pcb.FreeList.{init_pcbs, alloc_pcb}
use patrick_landon_os.Asl.{init_asl}
use patrick_landon_os.Scheduler.{stck, scheduler}
use patrick_landon_os.Exceptions.Calls.{make_ready}
use patrick_landon_os.Interrupts.{ldit}

-- The state that an exception loads: its handler, with the stack at the top of memory.
abbrev pub handler_state : (handler ramtop : Word) → State → State
handler_state handler ramtop s =
    let t = set_reg s_sp ramtop (set_reg s_t9 handler s) in
    record t { s_pc = handler; s_status = bit_or all_off ploc_time_on }

-- The state of the first process.
abbrev pub first_state : (test ramtop : Word) → State → State
first_state test ramtop s =
    let t = set_reg s_sp (ramtop -w page_size) (set_reg s_t9 test s) in
    record t {
      s_pc = test;
      s_status =
          bit_or (bit_or (bit_or (bit_or inter_on inter_unmasked) vm_not_on) ploc_time_on)
            kernel_on;
    }

unfoldable pub clear_sems : Layout → ℕ → ℕ → Cmd (Unit {0})
clear_sems l zero i = pure tt
clear_sems l (suc n) i = do modify_int (sem_dev_addr l i) (λ v. 0); clear_sems l n (i + 1)

-- Up to the call of the scheduler.
unfoldable pub set_up : Layout → Cmd (Unit {0})
unfolding clear_sems
set_up l = do
  m ← read (λ m. m)
  let ramtop = m.rambase +w m.ramsize
  modify_state syscall_new (handler_state l.sys_call_handler ramtop)
  modify_state prog_trap_new (handler_state l.prog_trap_handler ramtop)
  modify_state tlb_mgmt_new (handler_state l.tlb_trap_handler ramtop)
  modify_state inter_new (handler_state l.io_trap_handler ramtop)
  init_pcbs l.pcb_arr
  init_asl l.semd_arr
  change (λ m. record m {
    proc_cnt = 0;
    sft_blk_cnt = 0;
    ready_que = mk_empty_proc_q;
    current_proc = null;
    io_proc_time = 0;
  })
  clear_sems l device_cnt 0
  p ← alloc_pcb
  modify_pcb p (λ c. record c { p_s = first_state l.test ramtop c.p_s })
  make_ready p
  change (λ m. record m { proc_cnt = m.proc_cnt +w 1 })
  ldit interval
  now ← stck
  change (λ m. record m { start_tod = now })

unfoldable pub main : Layout → Cmd Word
unfolding set_up
main l = do set_up l; scheduler; pure 0xFFFFFFFF
