-- ===== src/Layout.antt =====
-- What the linker chooses: the addresses of static arrays and of functions.
use patrick_landon_os.Base.{ℕ, ◌+◌, ◌*◌, ◌%◌, ◌-◌, word_mod}
use patrick_landon_os.Machine.Memory.{Ptr}
use patrick_landon_os.Const.{sizeof_int, device_cnt}

pub record Layout : Type 0 where
  pub pcb_arr : Ptr
  pub semd_arr : Ptr
  pub sem_dev_array : Ptr
  pub sys_call_handler : Ptr
  pub prog_trap_handler : Ptr
  pub tlb_trap_handler : Ptr
  pub io_trap_handler : Ptr
  pub test : Ptr

-- `&(semDevArray[index])`
abbrev pub sem_dev_addr : Layout → ℕ → Ptr
sem_dev_addr l index = (l.sem_dev_array + sizeof_int * index) % word_mod

-- `&(semDevArray[DEVICECNT-1])`, the semaphore of the pseudo-clock.
abbrev pub clock_addr : Layout → Ptr
clock_addr l = sem_dev_addr l (device_cnt - 1)
