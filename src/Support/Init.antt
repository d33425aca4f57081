-- ===== src/Support/Init.antt =====
-- phase3/initProc.c: `test`, the first process, and `uProcInit`, with which a user process begins.
pub mod Fill
pub mod Start
pub mod Enter
use patrick_landon_os.Support.Terminate.{asid_int_of, no_asid}
use patrick_landon_os.Base.{
  zero, suc, not, ℕ, Word, bit_or, if◌then◌else◌, ◌-w◌, ◌-◌, ◌+◌, ◌+w◌, shl, ◌==◌, ◌*w◌, ◌*◌,
}
use patrick_landon_os.Support.Tables.{
  null_entry, kseg_os_table, kuseg3_table, u_table, SwapEntry, PteEntry, UProc,
}
use patrick_landon_os.Support.Vm.{
  Act, Places, ok, ldst, create, pure, ◌>>=◌, ◌>>◌, read, change, when, leave, log, syscall,
  end_with, put, modify_uproc, modify_swap,
}
use patrick_landon_os.Types.{State, set_reg, s_sp, s_t9}
use patrick_landon_os.Const.{
  device_cnt, passeren, pool_size, u_proc_stack, seg_table_start, kseg_os_pte_size, vm_on,
  kuseg_pte_size, max_pages, spec_trap_vec, max_uproc, mag_no, tlb_trap, trap_types, inter_on,
  page_size, success, inter_unmasked, terminate_process, prog_trap, sys_trap, ploc_time_on,
  vm_not_on, kernel_on, kernel_off,
}
use patrick_landon_os.Support.Disk.{tape_to_disk}

-- `for(i = 0; i < DEVICECNT; i++) devSemArray[i] = 1;`
unfoldable pub init_dev_sems : ℕ → ℕ → Act (Unit {0})
init_dev_sems zero i = pure tt
init_dev_sems (suc n) i = do
  change (λ m. record m { dev_sem_array = put m.dev_sem_array i 1 })
  init_dev_sems n (i + 1)

abbrev pub empty_frame : SwapEntry
empty_frame = record { sp_asid = no_asid; sp_seg_no = 0; sp_page_no = 0; sp_pte_entry = null_entry }

unfoldable pub init_swap_pool : ℕ → ℕ → Act (Unit {0})
init_swap_pool zero i = pure tt
init_swap_pool (suc n) i = do modify_swap i (λ e. empty_frame); init_swap_pool n (i + 1)

-- A loop that sets the entries of a page table from `i` on, `n` of them.
unfoldable pub fill_entries {ℓ} : {A : Type ℓ} → (ℕ → A) → ℕ → ℕ → (ℕ → A) → ℕ → A
fill_entries f zero i t = t
fill_entries f (suc n) i t = fill_entries f n (i + 1) (put t i (f i))

abbrev pub table_header : Word → Word
table_header size = bit_or (shl mag_no 24) size

abbrev pub kseg_os_entry : ℕ → PteEntry
kseg_os_entry i = record {
  pte_entry_hi = shl (0x20000 +w i) 12;
  pte_entry_lo = bit_or (shl (0x20000 +w i) 12) (shl 0x7 8);
}

abbrev pub kuseg3_entry : ℕ → PteEntry
kuseg3_entry i = record { pte_entry_hi = shl (0xC0000 +w i) 12; pte_entry_lo = shl 0x5 8 }

-- The entry `j` of the process with the identifier `i`.
abbrev pub user_entry : (i j : ℕ) → PteEntry
user_entry i j = record {
  pte_entry_hi = bit_or (shl (0x80000 +w j) 12) (shl i 6);
  pte_entry_lo = shl 0x1 10;
}

abbrev pub with_hi : Word → PteEntry → PteEntry
with_hi w e = record e { pte_entry_hi = w }

abbrev pub last_to_stack : ℕ → (ℕ → PteEntry) → ℕ → PteEntry
last_to_stack i t =
    put t (max_pages - 1) (with_hi (bit_or (shl 0xBFFFF 12) (shl i 6)) (t (max_pages - 1)))

-- The page table of the process with the identifier `i`.
unfoldable pub init_u_proc : ℕ → UProc → UProc
init_u_proc i u = record u {
  u_pte = record {
    header = table_header kuseg_pte_size;
    pte_table = last_to_stack i (fill_entries (user_entry i) max_pages 0 u.u_pte.pte_table);
  };
  u_sem = 0;
}

-- The state with which the process begins, over the local variable `state`.
abbrev pub start_state : Places → ℕ → State → State
start_state l i state =
    record (set_reg s_t9 l.u_proc_init_addr
      (set_reg s_sp (u_proc_stack +w (i -w 1) *w trap_types *w page_size) state)) {
        s_asid = shl i 6;
        s_pc = l.u_proc_init_addr;
        s_status =
            bit_or (bit_or (bit_or (bit_or vm_not_on inter_on) inter_unmasked) ploc_time_on)
              kernel_on;
      }

-- `SYSCALL(CREATEPROCESS, (int) &state, 0, 0)`
unfoldable pub create_proc : State → Act Word
create_proc s m =
    ok (m.answers m.answered) (record (log (create s) m) { answered = suc m.answered })

-- The loop that makes the user processes, from the identifier `i` on.
unfoldable pub create_loop : Places → ℕ → ℕ → State → Act (Unit {0})
create_loop l zero i state = pure tt
create_loop l (suc n) i state = do
  modify_uproc (i - 1) (init_u_proc i)
  change (λ m. record m {
    seg_tables = put m.seg_tables (seg_table_start + i * 12) (record {
      st_kseg_os = kseg_os_table;
      st_kuseg2 = u_table (i - 1);
      st_kuseg3 = kuseg3_table;
    });
  })
  status ← create_proc (start_state l i state)
  when (not (status == success)) (end_with terminate_process)
  create_loop l n (i + 1) (start_state l i state)

-- `for(i = 0; i < MAXUPROC; i++) SYSCALL(PASSEREN, (int) &masterSem, 0, 0);`
unfoldable pub wait_loop : Places → ℕ → Act (Unit {0})
wait_loop l zero = pure tt
wait_loop l (suc n) = do syscall passeren l.master_sem_addr 0 0; wait_loop l n

unfoldable pub test : Places → Act (Unit {0})
test l = do
  change (λ m. record m { master_sem = 0; swap_pool_sem = 1 })
  init_dev_sems device_cnt 0
  init_swap_pool pool_size 0
  change (λ m. record m {
    kseg_os = record {
      header = table_header kseg_os_pte_size;
      pte_table = fill_entries kseg_os_entry kseg_os_pte_size 0 m.kseg_os.pte_table;
    };
    kuseg3 = record {
      header = table_header kuseg_pte_size;
      pte_table = fill_entries kuseg3_entry kuseg_pte_size 0 m.kuseg3.pte_table;
    };
  })
  state ← read (λ m. m.uninit_state)
  create_loop l max_uproc 1 state
  wait_loop l max_uproc
  end_with terminate_process

-- The handler of a type of trap; other types have none, and keep the old one.
abbrev pub with_handler : Places → ℕ → State → State
with_handler l i s =
    if i == tlb_trap
    then set_reg s_t9 l.pager_addr (record s { s_pc = l.pager_addr })
    else if i == prog_trap
    then set_reg s_t9 l.user_prog_trap_handler_addr
        (record s { s_pc = l.user_prog_trap_handler_addr })
    else if i == sys_trap
    then set_reg s_t9 l.user_syscall_handler_addr (record s { s_pc = l.user_syscall_handler_addr })
    else s

abbrev pub handler_status : Word
handler_status =
    bit_or (bit_or (bit_or (bit_or vm_on inter_on) inter_unmasked) ploc_time_on) kernel_on

abbrev pub handler_stack : (asid : Word) → ℕ → Word
handler_stack asid i = u_proc_stack +w (((asid -w 1) *w trap_types) +w i) *w page_size

abbrev pub new_state : Places → (hi asid : Word) → ℕ → State → State
new_state l hi asid i s =
    with_handler l i
      (record (set_reg s_sp (handler_stack asid i) s) { s_asid = hi; s_status = handler_status })

unfoldable pub trap_loop : Places → (asid : Word) → ℕ → ℕ → Act (Unit {0})
trap_loop l asid zero i = pure tt
trap_loop l asid (suc n) i = do
  hi ← read (λ m. m.entry_hi)
  modify_uproc (asid -w 1)
      (λ u. record u { u_new_trap = put u.u_new_trap i (new_state l hi asid i (u.u_new_trap i)) })
  syscall spec_trap_vec i (l.old_trap_addr (asid -w 1) i) (l.new_trap_addr (asid -w 1) i)
  trap_loop l asid n (i + 1)

-- The state of the user's program.
abbrev pub user_state : (hi : Word) → State → State
user_state hi s = record (set_reg s_t9 0x800000B0 (set_reg s_sp 0xC0000000 s)) {
  s_asid = hi;
  s_status =
      bit_or (bit_or (bit_or (bit_or vm_on inter_on) inter_unmasked) ploc_time_on) kernel_off;
  s_pc = 0x800000B0;
}

-- `rounds` bounds the length of the tape.
unfoldable pub u_proc_init : Places → (rounds : ℕ) → Act (Unit {0})
unfolding trap_loop
u_proc_init l rounds = do
  asid ← read (λ m. asid_int_of m.entry_hi)
  tape_to_disk l rounds asid
  trap_loop l asid trap_types 0
  hi ← read (λ m. m.entry_hi)
  s ← read (λ m. m.uninit_state)
  leave (ldst (user_state hi s))
