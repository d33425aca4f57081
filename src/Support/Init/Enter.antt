-- ===== src/Support/Init/Enter.antt =====
-- `uProcInit` up to the user's program.
use patrick_landon_os.Support.Terminate.{asid_int_of}
use patrick_landon_os.Base.{
  ℕ, ◌<◌, ◌≡◌, ◌∙◌, ap, refl, subst, ◌∷◌, ◌-w◌, Word, arith, ==_self, suc, ◌+◌, zero,
}
use patrick_landon_os.Const.{max_uproc, tlb_trap, prog_trap, sys_trap, spec_trap_vec}
use patrick_landon_os.Types.{State}
use patrick_landon_os.Support.Vm.{Vm, Places, Event, call, ok, gone, ldst, syscall, put}
use patrick_landon_os.Support.Vm.Arrays.{modify_uproc-ok}
use patrick_landon_os.Support.Disk.Runs.{AlwaysReady}
use patrick_landon_os.Support.Disk.Tape.{IsTape, tape_to_disk-Copied, tape_events}
use patrick_landon_os.Support.Init.{u_proc_init, trap_loop, new_state, user_state}

-- The handlers of the process `p` for its three types of trap, in the address space `hi`. In their status
-- the bits 25 (virtual memory), 27 (the local timer), 2 (interrupts) and 8 to 15 (their mask) are set,
-- and no other, so that they run in kernel mode.
pub record IsHandled (l : Places) (hi : Word) (new : ℕ → State) : Type 0 where
  pub tlb : (new tlb_trap).s_pc ≡ l.pager_addr
  pub prog : (new prog_trap).s_pc ≡ l.user_prog_trap_handler_addr
  pub sys : (new sys_trap).s_pc ≡ l.user_syscall_handler_addr
  pub status : (i : ℕ) → i < 3 → (new i).s_status ≡ 0x0A00FF04
  pub space : (i : ℕ) → i < 3 → (new i).s_asid ≡ hi

-- The call that gives the kernel the areas of a type of trap.
abbrev pub vector_call : Places → ℕ → ℕ → Event
vector_call l p i = call spec_trap_vec i (l.old_trap_addr p i) (l.new_trap_addr p i)

all_three : (f : ℕ → Word) (v : Word) → f 0 ≡ v → f 1 ≡ v → f 2 ≡ v → (i : ℕ) → i < 3 → f i ≡ v
all_three f v a b c zero h = a
all_three f v a b c (suc zero) h = b
all_three f v a b c (suc (suc zero)) h = c
all_three f v a b c (suc (suc (suc i))) h = absurd (omega arith)

module _ (l : Places) (asid : Word) (m : Vm) (known : (asid -w 1) < max_uproc) where
  abbrev p : ℕ
  p = asid -w 1

  abbrev with_new : ℕ → Vm → Vm
  with_new i n = record n {
    u_procs = put n.u_procs p (record (n.u_procs p) {
      u_new_trap =
          put (n.u_procs p).u_new_trap i
            (new_state l n.entry_hi asid i ((n.u_procs p).u_new_trap i));
    });
    answered = suc n.answered;
    trace = vector_call l p i ∷ n.trace;
  }

  loop-step :
      (k i : ℕ) (n : Vm) → trap_loop l asid (suc k) i n ≡ trap_loop l asid k (i + 1) (with_new i n)
  unfolding trap_loop syscall
  loop-step k i n =
      rw
        (modify_uproc-ok n p
          (λ u. record u {
            u_new_trap = put u.u_new_trap i (new_state l n.entry_hi asid i (u.u_new_trap i));
          })
          known)
        refl

  abbrev handled : Vm
  handled = with_new 2 (with_new 1 (with_new 0 m))

  loop-runs : trap_loop l asid 3 0 m ≡ ok tt handled
  unfolding trap_loop
  loop-runs =
      loop-step 2 0 m ∙ loop-step 1 1 (with_new 0 m) ∙ loop-step 0 2 (with_new 1 (with_new 0 m))

  handled-IsHandled : IsHandled l m.entry_hi (handled.u_procs p).u_new_trap
  handled-IsHandled = rw (==_self p) (record {
    tlb = refl;
    prog = refl;
    sys = refl;
    status = all_three _ 0x0A00FF04 refl refl refl;
    space = all_three _ m.entry_hi refl refl refl;
  })

-- What `uProcInit` leaves behind after a tape of `n` blocks; the user's program begins with the status of
-- the handlers, but with bit 3, user mode, set.
pub record Entered (l : Places) (rounds n : ℕ) (m : Vm) : Type 0 where
  pub last : Vm
  pub user : State
  pub runs : u_proc_init l rounds m ≡ gone (ldst user) last
  pub program : user.s_pc ≡ 0x800000B0
  pub space : user.s_asid ≡ m.entry_hi
  pub status : user.s_status ≡ 0x0A00FF0C
  pub handled : IsHandled l m.entry_hi (last.u_procs (asid_int_of m.entry_hi -w 1)).u_new_trap
  pub events :
      last.trace
      ≡ vector_call l (asid_int_of m.entry_hi -w 1) sys_trap
        ∷ vector_call l (asid_int_of m.entry_hi -w 1) prog_trap
        ∷ vector_call l (asid_int_of m.entry_hi -w 1) tlb_trap
        ∷ tape_events l (asid_int_of m.entry_hi) n 0 m.trace

-- `uProcInit`, in one of the user processes with a tape of `n` blocks, where each call returns READY:
-- for any bound on the rounds above `n` it ends with the user's program at 0x800000B0, in user mode with
-- virtual memory and interrupts on, in the address space of the process. The tape is on the disk then;
-- the handlers of the three types of trap are `pager`, `userProgTrapHandler` and `userSyscallHandler`, in
-- kernel mode with virtual memory and interrupts on and in the same address space, and the kernel was
-- given each of them once.
pub u_proc_init-IsHandled :
    (l : Places) (rounds n : ℕ) (m : Vm)
    → (asid_int_of m.entry_hi -w 1) < max_uproc
    → n < rounds
    → IsTape n m
    → AlwaysReady m
    → Entered l rounds n m
unfolding u_proc_init
u_proc_init-IsHandled l rounds n m known h tape answers =
    let asid : Word = asid_int_of m.entry_hi in
    let c = tape_to_disk-Copied l rounds asid n m h tape answers in
    let end = handled l asid c.last known in
    record {
      last = end;
      user = user_state m.entry_hi m.uninit_state;
      program = refl;
      space = refl;
      status = refl;
      runs =
          rw (c.runs, loop-runs l asid c.last known)
            (ap (λ (hi : Word). gone (ldst (user_state hi c.last.uninit_state)) end) c.entry
              ∙ ap (λ (s : State). gone (ldst (user_state m.entry_hi s)) end) c.uninit);
      handled =
          subst (λ (hi : Word). IsHandled l hi (end.u_procs (asid -w 1)).u_new_trap) c.entry
            (handled-IsHandled l asid c.last known);
      events =
          ap
            (λ t.
              vector_call l (asid -w 1) sys_trap
              ∷ vector_call l (asid -w 1) prog_trap
              ∷ vector_call l (asid -w 1) tlb_trap
              ∷ t)
            c.events;
    }
