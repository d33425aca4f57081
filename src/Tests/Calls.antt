-- ===== src/Tests/Calls.antt =====
-- The theorems on the tape and on the calls of the user processes at a small machine.
use patrick_landon_os.Support.Terminate.{terminate_user_proc}
use patrick_landon_os.Base.{
  ℕ, ◌==◌, if◌then◌else◌, ◌≢◌, ◌≡◌, arith, inl, inr, refl, zero, suc, ◌<◌, ◌+◌,
}
use patrick_landon_os.Types.{zero_state, set_reg, s_a0}
use patrick_landon_os.Support.Vm.{Vm}
use patrick_landon_os.Support.Calls.Write.{Written, IsWrite, write_to_terminal-AllSent}
use patrick_landon_os.Support.Calls.Refuse.{IsWild, user_syscall_handler-terminate_user_proc}
use patrick_landon_os.Support.Calls.{user_syscall_handler}
use patrick_landon_os.Support.Disk.Tape.{Copied, IsTape, tape_to_disk-Copied}
use patrick_landon_os.Const.{eot, char_transmd, eof}
use patrick_landon_os.Tests.Vms.{places, machine}
use patrick_landon_os.Support.Init.Enter.{Entered, u_proc_init-IsHandled}

three_blocks : IsTape 3 machine
three_blocks = record { blocks = no_end; end = inr refl }
  where
    no_end : (j : ℕ) → j < 3 → (machine.marks (0 + j) ≢ eot) × (machine.marks (0 + j) ≢ eof)
    no_end zero h = (λ e. absurd (omega (arith, e)), λ e. absurd (omega (arith, e)))
    no_end (suc zero) h = (λ e. absurd (omega (arith, e)), λ e. absurd (omega (arith, e)))
    no_end (suc (suc zero)) h = (λ e. absurd (omega (arith, e)), λ e. absurd (omega (arith, e)))
    no_end (suc (suc (suc j))) h = absurd (omega arith)

tape_to_disk-Copied_example : Copied places 10 1 3 machine
tape_to_disk-Copied_example =
    tape_to_disk-Copied places 10 1 3 machine (omega arith) three_blocks (λ k. refl)

-- The terminal takes every character, or all but the third.
abbrev terminal : Vm
terminal = record machine { answers = λ k. 5 }

terminal-IsWrite : IsWrite terminal
terminal-IsWrite = record { known = omega arith; len = omega arith; own = omega arith }

write_to_terminal-AllSent_example : Written places terminal 3 2
write_to_terminal-AllSent_example =
    write_to_terminal-AllSent places terminal 2 terminal-IsWrite refl (λ j h. refl)

abbrev bad_terminal : Vm
bad_terminal = record machine { answers = λ k. if k == 3 then 4 else 5 }

bad_terminal-IsWrite : IsWrite bad_terminal
bad_terminal-IsWrite = record { known = omega arith; len = omega arith; own = omega arith }

taken : (j : ℕ) → j < 2 → bad_terminal.answers (1 + j) ≡ char_transmd
taken zero h = refl
taken (suc zero) h = refl
taken (suc (suc j)) h = absurd (omega arith)

-- A call with the number 11.
abbrev wild : Vm
wild = record machine {
  u_procs = λ p. record (machine.u_procs p) { u_old_trap = λ i. set_reg s_a0 11 zero_state };
}

wild-IsWild : IsWild wild
wild-IsWild = record { wild = inl (λ e. absurd (omega (arith, e))) }

user_syscall_handler-terminate_user_proc_example :
    user_syscall_handler places wild ≡ terminate_user_proc places wild
user_syscall_handler-terminate_user_proc_example =
    user_syscall_handler-terminate_user_proc places wild (omega arith) wild-IsWild

u_proc_init-IsHandled_example : Entered places 10 3 machine
u_proc_init-IsHandled_example =
    u_proc_init-IsHandled places 10 3 machine (omega arith) (omega arith) three_blocks (λ k. refl)
