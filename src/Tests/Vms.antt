-- ===== src/Tests/Vms.antt =====
-- A small machine with user processes.
use patrick_landon_os.Support.Terminate.{no_asid}
use patrick_landon_os.Base.{ℕ, [], Word, false, ◌==◌, ◌&&◌, if◌then◌else◌, ltb}
use patrick_landon_os.Types.{State, zero_state, set_reg, s_a0, s_a1, s_a2}
use patrick_landon_os.Support.Tables.{null_table, null_entry, u_entry, SwapEntry, UProc}
use patrick_landon_os.Support.Vm.{Vm, Places, put}
use patrick_landon_os.Support.Pager.{present}

abbrev pub places : Places
places = record {
  swap_pool_sem_addr = 0x100;
  master_sem_addr = 0x104;
  dev_sem_array_addr = 0x200;
  new_trap_addr = λ p i. 0x1000;
  old_trap_addr = λ p i. 0x2000;
  pager_addr = 0x3000;
  user_prog_trap_handler_addr = 0x3100;
  user_syscall_handler_addr = 0x3200;
  u_proc_init_addr = 0x3300;
}

-- A TLB trap on a load from the page 5, and a call that writes the first 3 characters at 0x80000000.
abbrev pub trapped : ℕ → State
trapped =
    put (λ i. set_reg s_a2 3 (set_reg s_a1 0x80000000 (set_reg s_a0 10 zero_state))) 0
      (record zero_state { s_cause = 12; s_asid = 0x80005000 })

-- The page 3 of the first process is in the frame 1, and no other page is in a frame.
abbrev pub one_page : (proc page : ℕ) → Word
one_page p q = if p == 0 && q == 3 then present 0x1FB000 else 0

abbrev pub one_frame : ℕ → SwapEntry
one_frame =
    put
      (λ f. record { sp_asid = no_asid; sp_seg_no = 0; sp_page_no = 0; sp_pte_entry = null_entry })
      1 (record { sp_asid = 1; sp_seg_no = 2; sp_page_no = 3; sp_pte_entry = u_entry 0 3 })

abbrev pub some_procs : ℕ → UProc
some_procs p = record {
  u_sem = 0;
  u_pte = record {
    header = 0;
    pte_table = λ q. record { pte_entry_hi = 0; pte_entry_lo = one_page p q };
  };
  u_back_store_addr = 0;
  u_new_trap = λ i. zero_state;
  u_old_trap = trapped;
}

abbrev pub machine : Vm
machine = record {
  entry_hi = 0x80;
  cp0_status = 1;
  frame_no = 0;
  swap_pool = one_frame;
  u_procs = some_procs;
  kuseg3 = record { header = 0; pte_table = λ q. record { pte_entry_hi = 0; pte_entry_lo = 0 } };
  kseg_os = record { header = 0; pte_table = λ q. record { pte_entry_hi = 0; pte_entry_lo = 0 } };
  seg_tables =
      λ a. record { st_kseg_os = null_table; st_kuseg2 = null_table; st_kuseg3 = null_table };
  swap_pool_sem = 1;
  master_sem = 0;
  dev_sem_array = λ i. 1;
  rambase = 0x100000;
  ramsize = 0x100000;
  chars = λ a. 65;
  marks = λ i. if ltb i 3 then 2 else 1;
  blocks_read = 0;
  answers = λ k. 1;
  answered = 0;
  uninit = 0;
  uninit_state = zero_state;
  trace = [];
  pool_held = false;
  left_pool = one_frame;
  left_procs = some_procs;
}
