-- ===== src/Types.antt =====
-- h/types.h: the objects that the kernel keeps in memory.
use patrick_landon_os.Base.{ℕ, List, Word, get_or, set, replicate}
use patrick_landon_os.Machine.Memory.{Ptr, null}
use patrick_landon_os.Const.{state_reg_num}

-- `state_t`. The list holds the `STATEREGNUM` registers.
pub record State : Type 0 where
  pub s_asid : Word
  pub s_cause : Word
  pub s_status : Word
  pub s_pc : Word
  pub s_reg : List Word

-- The positions of the named registers in `s_reg`.
abbrev pub s_v0 : ℕ
s_v0 = 1

abbrev pub s_a0 : ℕ
s_a0 = 3

abbrev pub s_a1 : ℕ
s_a1 = 4

abbrev pub s_a2 : ℕ
s_a2 = 5

abbrev pub s_a3 : ℕ
s_a3 = 6

abbrev pub s_t9 : ℕ
s_t9 = 24

abbrev pub s_sp : ℕ
s_sp = 26

abbrev pub reg : ℕ → State → Word
reg i s = get_or s.s_reg i 0

abbrev pub set_reg : ℕ → Word → State → State
set_reg i v s = record s { s_reg = set s.s_reg i v }

-- `pcb_t`.
pub record Pcb : Type 0 where
  pub p_next : Ptr
  pub p_prev : Ptr
  pub p_prnt : Ptr
  pub p_child : Ptr
  pub p_sib : Ptr
  pub p_s : State
  pub p_sem_add : Ptr
  pub p_time : Word
  pub p_old_sys : Ptr
  pub p_old_pgm : Ptr
  pub p_old_tlb : Ptr
  pub p_new_sys : Ptr
  pub p_new_pgm : Ptr
  pub p_new_tlb : Ptr

-- `semd_t`.
pub record Semd : Type 0 where
  pub s_next : Ptr
  pub s_sem_add : Ptr
  pub s_proc_q : Ptr

-- `device_t`. A terminal's receiver is `d_status` and `d_command`, its transmitter the others.
pub record Device : Type 0 where
  pub d_status : Word
  pub d_command : Word
  pub d_data0 : Word
  pub d_data1 : Word

-- The state with every word 0, and the objects that static storage begins with. They also stand
-- for an object where there is none.
abbrev pub zero_state : State
zero_state = record {
  s_asid = 0;
  s_cause = 0;
  s_status = 0;
  s_pc = 0;
  s_reg = replicate state_reg_num 0;
}

-- A process block that belongs to no queue, tree or semaphore.
abbrev pub blank_pcb : Pcb
blank_pcb = record {
  p_next = null;
  p_prev = null;
  p_prnt = null;
  p_child = null;
  p_sib = null;
  p_s = zero_state;
  p_sem_add = null;
  p_time = 0;
  p_old_sys = null;
  p_old_pgm = null;
  p_old_tlb = null;
  p_new_sys = null;
  p_new_pgm = null;
  p_new_tlb = null;
}

abbrev pub blank_semd : Semd
blank_semd = record { s_next = null; s_sem_add = null; s_proc_q = null }
