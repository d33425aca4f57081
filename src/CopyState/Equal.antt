-- ===== src/CopyState/Equal.antt =====
-- The loop of `copyState` copies every register.
use patrick_landon_os.Base.{
  ℕ, suc, ◌+◌, ◌≡◌, refl, ap, ◌∙◌, subst, List, [], ◌∷◌, ◌++◌, Word, length, get_or, set,
  length-append, append_assoc, arith, sym, get_or-append, set-append,
}
use patrick_landon_os.Types.{State}
use patrick_landon_os.Const.{state_reg_num}
use patrick_landon_os.CopyState.{copy_regs, copy_state}

copy_regs-suc :
    (n i : ℕ) (orig curr : List Word)
    → copy_regs (suc n) i orig curr ≡ copy_regs n (i + 1) orig (set curr i (get_or orig i 0))
unfolding copy_regs
copy_regs-suc n i orig curr = refl

-- The registers before position `length pre` are equal already.
copy_regs-rest :
    (pre orig curr : List Word)
    → length orig ≡ length curr
    → copy_regs (length curr) (length pre) (pre ++ orig) (pre ++ curr) ≡ pre ++ orig
copy_regs-rest pre [] [] e = unfold copy_regs in refl
copy_regs-rest pre [] (c ∷ cs) e = cc
copy_regs-rest pre (o ∷ os) [] e = cc
copy_regs-rest pre (o ∷ os) (c ∷ cs) e =
    rw
      (
        copy_regs-suc (length cs) (length pre) (pre ++ o ∷ os) (pre ++ c ∷ cs),
        get_or-append pre o 0 os,
        set-append pre c o cs,
        ← length-append pre (o ∷ []),
        ← append_assoc pre (o ∷ []) cs,
        ← append_assoc pre (o ∷ []) os,
      )
      (copy_regs-rest (pre ++ o ∷ []) os cs (omega arith))

-- After `copyState`, the one state is the other: every field and every one of the registers.
pub copy_state-eq :
    (orig curr : State)
    → length orig.s_reg ≡ state_reg_num
    → length curr.s_reg ≡ state_reg_num
    → copy_state orig curr ≡ orig
unfolding copy_state
copy_state-eq orig curr ho hc = ap (λ r. record orig { s_reg = r }) copied
  where
    copied : copy_regs state_reg_num 0 orig.s_reg curr.s_reg ≡ orig.s_reg
    copied =
        subst (λ n. copy_regs n 0 orig.s_reg curr.s_reg ≡ orig.s_reg) hc
          (copy_regs-rest [] orig.s_reg curr.s_reg (ho ∙ sym hc))
