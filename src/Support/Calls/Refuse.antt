-- ===== src/Support/Calls/Refuse.antt =====
-- `userSyscallHandler` on what it refuses.
use patrick_landon_os.Support.Terminate.{terminate_user_proc}
use patrick_landon_os.Base.{
  ◌<◌, ◌≡◌, ◌≢◌, ◌⊎◌, refl, inl, inr, arith, true, is_neg, ◌||◌, ltb, Bool-cases, ◌==◌, eq_of_==,
}
use patrick_landon_os.Const.{write_terminal, max_uproc, kseg_os_end, terminate}
use patrick_landon_os.Types.{reg, s_a0, s_a1, s_a2}
use patrick_landon_os.Support.Vm.{Vm, Places}
use patrick_landon_os.Support.Vm.Arrays.{load_uproc-ok}
use patrick_landon_os.Support.Calls.{user_syscall_handler, write_to_terminal}
use patrick_landon_os.Support.Calls.Write.{request, caller}
use patrick_landon_os.Support.Calls.Release.{terminate_user_proc-gone}

-- Another call than WRITETERMINAL; or one for more than 128 characters, or for a negative number; or for
-- memory that is not the process's own.
pub record IsWild (m : Vm) : Type 0 where
  pub wild :
      (reg s_a0 (request m) ≢ write_terminal)
      ⊎ ((128 < reg s_a2 (request m)) ⊎ (reg s_a1 (request m) < kseg_os_end))

out_of_bounds :
    (l : Places) (m : Vm)
    → caller m < max_uproc
    → (is_neg (reg s_a2 (request m))
        || ltb 128 (reg s_a2 (request m))
        || ltb (reg s_a1 (request m)) kseg_os_end)
      ≡ true
    → write_to_terminal l m ≡ terminate_user_proc l m
unfolding write_to_terminal
out_of_bounds l m known h =
    let (way, last, e) = terminate_user_proc-gone l m in
    rw (load_uproc-ok m (caller m) known, h, e) refl

-- `userSyscallHandler`, for one of the user processes, on another call than WRITETERMINAL, or on a
-- WRITETERMINAL whose length is negative or above 128 or whose text starts below the process's own
-- memory: it does what `terminateUserProc` does, and nothing else.
pub user_syscall_handler-terminate_user_proc :
    (l : Places) (m : Vm)
    → caller m < max_uproc
    → IsWild m
    → user_syscall_handler l m ≡ terminate_user_proc l m
unfolding user_syscall_handler
user_syscall_handler-terminate_user_proc l m known w =
    elim (Bool-cases (reg s_a0 (request m) == write_terminal)) [
      | inl e ↦
          rw (load_uproc-ok m (caller m) known, e)
            (out_of_bounds l m known (elim w.wild [
              | inl other ↦ absurd (other (eq_of_== _ write_terminal e))
              | inr (inl long) ↦ ground (arith, long)
              | inr (inr low) ↦ ground (arith, low)
            ]))
      | inr e ↦
          rw (load_uproc-ok m (caller m) known, e)
            (elim (Bool-cases (reg s_a0 (request m) == terminate)) [
              | inl t ↦ rw t refl
              | inr t ↦ rw t refl
            ])
    ]
