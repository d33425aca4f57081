-- ===== src/CopyState.antt =====
-- `copyState`, which phase2/exceptions.c and phase2/interrupts.c each have.
pub mod Equal
use patrick_landon_os.Base.{ℕ, zero, suc, ◌+◌, List, Word, get_or, set}
use patrick_landon_os.Types.{State}
use patrick_landon_os.Const.{state_reg_num}

-- for(i = 0; i < STATEREGNUM; i++) curr->s_reg[i] = orig->s_reg[i], with `n` rounds left.
unfoldable pub copy_regs : ℕ → ℕ → List Word → List Word → List Word
copy_regs zero i orig curr = curr
copy_regs (suc n) i orig curr = copy_regs n (i + 1) orig (set curr i (get_or orig i 0))

-- What `*curr` becomes.
unfoldable pub copy_state : State → State → State
unfolding copy_regs
copy_state orig curr = record {
  s_asid = orig.s_asid;
  s_cause = orig.s_cause;
  s_status = orig.s_status;
  s_pc = orig.s_pc;
  s_reg = copy_regs state_reg_num 0 orig.s_reg curr.s_reg;
}
