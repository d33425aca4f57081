-- ===== src/Pcb/FreeList.antt =====
-- phase1/pcb.c, the free list: `pcbFree_h` and `p_next` link the blocks that no process has.
pub mod Reset
pub mod Chain
pub mod Init
use patrick_landon_os.Base.{ℕ, zero, suc, ◌+◌, ◌*◌, List, Word, set, if◌then◌else◌}
use patrick_landon_os.Machine.Memory.{Ptr, null}
use patrick_landon_os.Types.{State, Pcb}
use patrick_landon_os.Const.{max_proc, sizeof_pcb, state_reg_num}
use patrick_landon_os.Machine.{Cmd, pure, read, change, ◌>>=◌, ◌>>◌, load_pcb, modify_pcb}
use patrick_landon_os.Pcb.Queue.{empty_proc_q, mk_empty_proc_q}

-- for(i = 0; i < STATEREGNUM; i++) state->s_reg[i] = 0, with `n` rounds left.
unfoldable pub reset_regs : ℕ → ℕ → List Word → List Word
reset_regs zero i regs = regs
reset_regs (suc n) i regs = reset_regs n (i + 1) (set regs i 0)

unfoldable pub reset_state : State → State
unfolding reset_regs
reset_state s = record s {
  s_asid = 0;
  s_cause = 0;
  s_status = 0;
  s_pc = 0;
  s_reg = reset_regs state_reg_num 0 s.s_reg;
}

-- The fields that `freePcb` and `allocPcb` both set.
unfoldable pub clear_fields : Pcb → Pcb
unfolding reset_state
clear_fields c = record c {
  p_prnt = null;
  p_child = null;
  p_sib = null;
  p_s = reset_state c.p_s;
  p_sem_add = null;
  p_time = 0;
  p_old_sys = null;
  p_old_pgm = null;
  p_old_tlb = null;
  p_new_sys = null;
  p_new_pgm = null;
  p_new_tlb = null;
}

unfoldable pub free_pcb : Ptr → Cmd (Unit {0})
unfolding clear_fields
free_pcb p = do
  modify_pcb p clear_fields
  head ← read (λ m. m.pcb_free_h)
  if empty_proc_q head
      then (do
        modify_pcb p (λ c. record c { p_prev = null; p_next = null })
        change (λ m. record m { pcb_free_h = p }))
      else (do
        modify_pcb p (λ c. record c { p_prev = null; p_next = head })
        change (λ m. record m { pcb_free_h = p }))

unfoldable pub alloc_pcb : Cmd Ptr
unfolding clear_fields
alloc_pcb = do
  p_ret ← read (λ m. m.pcb_free_h)
  if empty_proc_q p_ret then pure null else do
    first ← load_pcb p_ret
    change (λ m. record m { pcb_free_h = first.p_next })
    modify_pcb p_ret (λ c. clear_fields (record c { p_next = null; p_prev = null }))
    pure p_ret

-- The address of `pcbArr[i]`, for the array at `pcb_arr`.
abbrev pub pcb_addr : Ptr → ℕ → Ptr
pcb_addr pcb_arr i = pcb_arr + sizeof_pcb * i

-- The loop of `initPcbs`, with `n` rounds left.
unfoldable pub init_pcbs_loop : Ptr → ℕ → ℕ → Cmd (Unit {0})
init_pcbs_loop pcb_arr zero i = pure tt
init_pcbs_loop pcb_arr (suc n) i = do
  free_pcb (pcb_addr pcb_arr i)
  init_pcbs_loop pcb_arr n (i + 1)

unfoldable pub init_pcbs : Ptr → Cmd (Unit {0})
unfolding init_pcbs_loop
init_pcbs pcb_arr = do
  change (λ m. record m { pcb_free_h = mk_empty_proc_q })
  init_pcbs_loop pcb_arr max_proc 0
