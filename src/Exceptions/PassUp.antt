-- ===== src/Exceptions/PassUp.antt =====
-- Traps of a process that has a handler for them, and system calls that are traps.
use patrick_landon_os.Base.{◌≡◌, ◌≢◌, true, ==_ne, Word, shr, digit, ◌<◌, ◌≤◌, length, word_mod}
use patrick_landon_os.Const.{prog_trap_old, syscall_old, state_reg_num}
use patrick_landon_os.Machine.Memory.{Ptr, null, Store, live, get, upd, live-upd}
use patrick_landon_os.Machine.{Machine, exit, ldst}
use patrick_landon_os.Machine.Lemmas.{load_pcb-ok, load_state-ok, modify_state-ok}
use patrick_landon_os.Types.{State, Pcb, zero_state, blank_pcb, reg, s_a0}
use patrick_landon_os.Layout.{Layout}
use patrick_landon_os.CopyState.{copy_state}
use patrick_landon_os.Exceptions.Handlers.{
  Trap, prog, trap_areas, pass_up_or_die, sys_call_handler, reserved,
}

abbrev pub running : Machine → Pcb
running m = get blank_pcb m.pcbs m.current_proc

-- The areas that the current process named for a trap, where SYSCALL 5 was made for it.
pub record HasHandler (m : Machine) (t : Trap) : Type 0 where
  pub current : live m.pcbs m.current_proc ≡ true
  pub new_set : (trap_areas t (running m)).0 ≢ null
  pub old_live : live m.states (trap_areas t (running m)).1 ≡ true
  pub saved_live : live m.states (trap_areas t (running m)).2 ≡ true
  pub new_live : live m.states (trap_areas t (running m)).0 ≡ true

abbrev pub new_area : Machine → Trap → Ptr
new_area m t = (trap_areas t (running m)).0

abbrev pub old_area : Machine → Trap → Ptr
old_area m t = (trap_areas t (running m)).1

abbrev pub saved_area : Machine → Trap → Ptr
saved_area m t = (trap_areas t (running m)).2

-- The states in memory once the trap is passed up.
abbrev pub passed : Machine → Trap → Store State
passed m t = upd m.states (old_area m t) (copy_state (get zero_state m.states (saved_area m t)))

-- A trap of a process that named areas for it: the state saved at the trap is copied to the old area,
-- and control leaves for the new one; nothing else changes.
pub pass_up_or_die-handler :
    (l : Layout) (m : Machine) (t : Trap)
    → HasHandler m t
    → pass_up_or_die l t m
      ≡ exit (ldst (get zero_state (passed m t) (new_area m t))) (record m { states = passed m t })
unfolding pass_up_or_die
pass_up_or_die-handler l m t h = rw (
  load_pcb-ok m m.current_proc h.current,
  ==_ne (new_area m t) null h.new_set,
  load_state-ok m (saved_area m t) h.saved_live,
  modify_state-ok m (old_area m t) h.old_live,
  load_state-ok (record m { states = passed m t }) (new_area m t) (simp live-upd h.new_live),
)

-- The saved state of a privileged call, made over into a program trap.
abbrev pub trapped : Machine → Machine
trapped m = record m {
  states =
      upd m.states prog_trap_old
        (λ s. reserved (copy_state (get zero_state m.states syscall_old) s));
}

-- The bits 2 to 6 of the new cause are those of 10, the code of a reserved instruction, and the bits from
-- 8 on, the pending interrupts among them, are those of the old one.
pub record IsReserved (old new : Word) : Type 0 where
  pub code :
      (digit new 2 ≡ 0)
      × (digit new 3 ≡ 1)
      × (digit new 4 ≡ 0)
      × (digit new 5 ≡ 1)
      × (digit new 6 ≡ 0)
  pub pending : shr new 8 ≡ shr old 8

-- A system call with a number up to 8, made in user mode: bit 3 of the caller's status is set. The caller
-- has a handler for program traps, whose old area is not the one that the hardware uses.
pub record IsPrivileged (m : Machine) : Type 0 where
  pub saved : live m.states syscall_old ≡ true
  pub user : digit (get zero_state m.states syscall_old).s_status 3 ≡ 1
  pub number : reg s_a0 (get zero_state m.states syscall_old) ≤ 8
  pub word : (get zero_state m.states syscall_old).s_cause < word_mod
  pub handler : HasHandler m prog
  pub own : old_area m prog ≢ prog_trap_old
  pub regs : (a : Ptr) → length (get zero_state m.states a).s_reg ≡ state_reg_num

-- What is left behind where control goes to the handler.
pub record Refused (l : Layout) (m : Machine) : Type 0 where
  pub last : Machine
  pub start : State
  pub cause : Word
  pub runs : sys_call_handler l m ≡ exit (ldst start) last
  pub passed_up :
      get zero_state last.states (old_area m prog)
      ≡ record (get zero_state m.states syscall_old) { s_cause = cause }
  pub reserved_code : IsReserved (get zero_state m.states syscall_old).s_cause cause
  pub goes_on : start ≡ get zero_state last.states (new_area m prog)
  pub others :
      (a : Ptr)
      → a ≢ prog_trap_old
      → a ≢ old_area m prog
      → get zero_state last.states a ≡ get zero_state m.states a
  pub rest : last ≡ record m { states = last.states }

module _ (m : Machine) (c : IsPrivileged m) where
  abbrev caller : State
  caller = get zero_state m.states syscall_old
