-- ===== src/Support/Pool.antt =====
-- The swap pool and the page tables together: which page is in which frame.
pub mod Entries
pub mod Free
pub mod Replace
use patrick_landon_os.Support.Terminate.{no_asid}
use patrick_landon_os.Base.{
  ℕ, ◌<◌, ◌≡◌, ◌≢◌, Bool, true, false, Word, digit, shr, ◌-w◌, refl, arith, ◌==◌, ◌&&◌,
  if◌then◌else◌, lt→ltb, word_mod,
}
use patrick_landon_os.Const.{pool_size, max_uproc, kuseg_pte_size}
use patrick_landon_os.Support.Tables.{SwapEntry, PteRef, u_entry, UProc}
use patrick_landon_os.Support.Vm.{Vm, put, with_lo, modify_lo, ok}
use patrick_landon_os.Support.Pager.{clamp_page, frame_addr}

-- The low word of an entry of a page table.
abbrev pub lo_in : (ℕ → UProc) → (proc page : ℕ) → Word
lo_in procs p q = ((procs p).u_pte.pte_table q).pte_entry_lo

-- The processes' tables with another low word in one entry.
abbrev pub with_entry : (ℕ → UProc) → (proc page : ℕ) → (Word → Word) → ℕ → UProc
with_entry procs p q f = put procs p (record (procs p) { u_pte = with_lo q f (procs p).u_pte })

module _ (procs : ℕ → UProc) (p q : ℕ) (f : Word → Word) where
  pub lo_in-with_entry :
      (a b : ℕ)
      → lo_in (with_entry procs p q f) a b
        ≡ (if a == p && b == q then f (lo_in procs p q) else lo_in procs a b)
  lo_in-with_entry a b = ground arith

  pub traps-with_entry : (a : ℕ) → (with_entry procs p q f a).u_old_trap ≡ (procs a).u_old_trap
  traps-with_entry a = ground arith

pub modify_lo-ok :
    (m : Vm) (p q : ℕ) (f : Word → Word)
    → p < max_uproc
    → q < kuseg_pte_size
    → modify_lo (u_entry p q) f m ≡ ok tt (record m { u_procs = with_entry m.u_procs p q f })
unfolding modify_lo
modify_lo-ok m p q f hp hq = rw (lt→ltb q kuseg_pte_size hq, lt→ltb p max_uproc hp) refl

-- The entry of the page that a frame holds.
abbrev pub entry_of : SwapEntry → PteRef
entry_of e = u_entry (e.sp_asid -w 1) (clamp_page e.sp_page_no)

-- A frame that holds a page: the pool and the page table agree on it.
pub record Holds (alive : ℕ → Bool) (lo : (proc page : ℕ) → Word) (loc : Word) (e : SwapEntry)
    : Type 0 where
  pub entry : e.sp_pte_entry ≡ entry_of e
  pub asid_word : e.sp_asid < word_mod
  pub proc_range : (e.sp_asid -w 1) < max_uproc
  pub page_range : clamp_page e.sp_page_no < kuseg_pte_size
  pub running : alive (e.sp_asid -w 1) ≡ true
  pub valid : digit (lo (e.sp_asid -w 1) (clamp_page e.sp_page_no)) 9 ≡ 1
  pub frame : shr (lo (e.sp_asid -w 1) (clamp_page e.sp_page_no)) 12 ≡ shr loc 12

-- The frame `f` of the pool holds the page `q` of the process `p`.
pub record In (pool : ℕ → SwapEntry) (p q f : ℕ) : Type 0 where
  pub range : f < pool_size
  pub taken : (pool f).sp_asid ≢ no_asid
  pub proc : ((pool f).sp_asid -w 1) ≡ p
  pub page : clamp_page (pool f).sp_page_no ≡ q

-- The pool and the page tables of the processes that are `alive` agree: a frame that is not free
-- holds a page whose entry is valid and has that frame, each valid entry is that of a page in a
-- frame, and no page is in two frames.
pub record IsMapped (alive : ℕ → Bool) (pool : ℕ → SwapEntry) (lo : (proc page : ℕ) → Word)
    (loc : ℕ → Word) : Type 0 where
  pub sound : (f : ℕ) → f < pool_size → (pool f).sp_asid ≢ no_asid → Holds alive lo (loc f) (pool f)
  pub complete :
      (p q : ℕ)
      → p < max_uproc
      → q < kuseg_pte_size
      → alive p ≡ true
      → digit (lo p q) 9 ≡ 1
      → (f : ℕ) × In pool p q f
  pub once : (p q f g : ℕ) → In pool p q f → In pool p q g → f ≡ g
