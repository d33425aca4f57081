-- ===== src/Pcb/FreeList/Reset.antt =====
-- The loop of `resetState`, and the fields that `freePcb` and `allocPcb` clear.
use patrick_landon_os.Base.{
  ℕ, suc, ◌+◌, ◌≡◌, refl, ap, List, [], ◌∷◌, ◌++◌, Word, length, set, replicate, arith,
  length-append, append_assoc, subst, set-append,
}
use patrick_landon_os.Machine.Memory.{null}
use patrick_landon_os.Types.{State, Pcb, zero_state, blank_pcb}
use patrick_landon_os.Const.{state_reg_num}
use patrick_landon_os.Pcb.FreeList.{reset_regs, reset_state, clear_fields}

reset_regs-suc :
    (n i : ℕ) (regs : List Word) → reset_regs (suc n) i regs ≡ reset_regs n (i + 1) (set regs i 0)
unfolding reset_regs
reset_regs-suc n i regs = refl

-- Registers before position `length pre` are done, and the loop clears the rest.
reset_regs-rest :
    (pre rest : List Word)
    → reset_regs (length rest) (length pre) (pre ++ rest) ≡ pre ++ replicate (length rest) 0
reset_regs-rest pre [] = unfold reset_regs in refl
reset_regs-rest pre (r ∷ rs) =
    rw
      (
        reset_regs-suc (length rs) (length pre) (pre ++ r ∷ rs),
        set-append pre r 0 rs,
        ← length-append pre (0 ∷ []),
        ← append_assoc pre (0 ∷ []) rs,
        ← append_assoc pre (0 ∷ []) (replicate (length rs) 0),
      )
      (reset_regs-rest (pre ++ 0 ∷ []) rs)

-- The loop clears all the registers of a state that has as many as it counts.
pub reset_state-zero : (s : State) → length s.s_reg ≡ state_reg_num → reset_state s ≡ zero_state
unfolding reset_state
reset_state-zero s h =
    ap (λ r. record s { s_asid = 0; s_cause = 0; s_status = 0; s_pc = 0; s_reg = r }) cleared
  where
    cleared : reset_regs state_reg_num 0 s.s_reg ≡ replicate state_reg_num 0
    cleared = subst (λ n. reset_regs n 0 s.s_reg ≡ replicate n 0) h (reset_regs-rest [] s.s_reg)

pub clear_fields-blank :
    (c : Pcb)
    → length c.p_s.s_reg ≡ state_reg_num
    → c.p_next ≡ null
    → c.p_prev ≡ null
    → clear_fields c ≡ blank_pcb
unfolding clear_fields
clear_fields-blank c h n p = ground (arith, reset_state-zero c.p_s h)
