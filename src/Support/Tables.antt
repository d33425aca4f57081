-- ===== src/Support/Tables.antt =====
-- h/types.h: page tables, segment tables, the user processes' structures and the swap pool.
use patrick_landon_os.Base.{ℕ, Word}
use patrick_landon_os.Types.{State}

-- `pteEntry_t`.
pub record PteEntry : Type 0 where
  pub pte_entry_hi : Word
  pub pte_entry_lo : Word

-- `pte_t` and `pteOS_t`.
pub record PageTable : Type 0 where
  pub header : Word
  pub pte_table : ℕ → PteEntry

-- A pointer to a page table.
pub data TableRef : Type 0 where
  null_table kseg_os_table kuseg3_table : TableRef
  u_table : (proc : ℕ) → TableRef

-- `segTable_t`.
pub record SegTable : Type 0 where
  pub st_kseg_os : TableRef
  pub st_kuseg2 : TableRef
  pub st_kuseg3 : TableRef

-- `uProc_t`.
pub record UProc : Type 0 where
  pub u_sem : Word
  pub u_pte : PageTable
  pub u_back_store_addr : Word
  pub u_new_trap : ℕ → State
  pub u_old_trap : ℕ → State

-- A pointer to an entry of a page table of `uProcs`.
pub data PteRef : Type 0 where
  null_entry : PteRef
  u_entry : (proc page : ℕ) → PteRef

-- `swapPool_t`.
pub record SwapEntry : Type 0 where
  pub sp_asid : Word
  pub sp_seg_no : Word
  pub sp_page_no : Word
  pub sp_pte_entry : PteRef
