-- ===== src/Support/Pager.antt =====
-- phase3/vmIOsupport.c: `getFrame` and `pager`, the handler of TLB traps.
pub mod Frame
pub mod Evict
pub mod Run
pub mod Resolve
pub mod Stuck
use patrick_landon_os.Support.Tables.{u_entry}
use patrick_landon_os.Support.Vm.{
  Vm, Act, Places, ldst, ◌>>=◌, ◌>>◌, read, change, when, leave, take_pool, give_pool, tlbclr,
  load_uproc, load_swap, modify_swap, modify_lo,
}
use patrick_landon_os.Types.{State}
use patrick_landon_os.Const.{
  passeren, verhogen, tlb_trap, tlb_inv_lw, kuseg_pte_size, page_size, pool_size, tlb_inv_sw,
  terminate, write_blk, kuseg3_no, read_blk,
}
use patrick_landon_os.Base.{
  Word, shr, if◌then◌else◌, ◌+w◌, ◌-w◌, bit_or, not, bit_and, ◌*w◌, true, shl, leb, ◌==◌, false,
  ◌&&◌, ◌-◌,
}
use patrick_landon_os.Support.Terminate.{no_asid, terminate_call}
use patrick_landon_os.Support.Disk.{disable_ints, disk_io, disk0_sem}

-- `asid = getENTRYHI(); asid = (asid << 20); asid = (asid >> 26);` on `unsigned int`.
abbrev pub asid_of : Word → Word
asid_of entry_hi = shr (shl entry_hi 20) 26

unfoldable pub get_frame : Act Word
get_frame = do
  change (λ m. record m { frame_no = m.frame_no +w 1 })
  frame ← read (λ m. m.frame_no)
  when (frame == pool_size) (change (λ m. record m { frame_no = 0 }))
  read (λ m. m.frame_no)

-- The exception code in the cause register.
abbrev pub exc_code : Word → Word
exc_code cause = shr (shl cause 25) 27

-- The page number of a trap, and its place in a page table: the last one for a page past the end.
abbrev pub page_of : State → Word
page_of s = shr (bit_and s.s_asid 0x3FFFF000) 12

abbrev pub clamp_page : Word → Word
clamp_page page = if leb kuseg_pte_size page then kuseg_pte_size - 1 else page

-- The address of the frame `f` of the swap pool.
abbrev pub frame_addr : Vm → Word → Word
frame_addr m f = ((m.rambase +w m.ramsize) -w 4 *w page_size) -w f *w page_size

-- The page table of the trap that is handled, its entry marked as valid and as in the frame at `loc`.
abbrev pub present : Word → Word
present loc = bit_or (bit_and loc 0xFFFFF000) (shl 0x6 8)

abbrev pub absent : Word → Word
absent lo = bit_and lo 0xCFF

-- `if(swapPool[fNo].sp_asid != -1) { ... }`: what the frame holds goes to its owner's place on the disk.
unfoldable pub evict : Places → (f loc : Word) → Act (Unit {0})
unfolding modify_lo
evict l f loc = do
  held ← load_swap f
  when (not (held.sp_asid == no_asid)) (do
    disable_ints true
    modify_lo held.sp_pte_entry absent
    tlbclr
    disable_ints false
    disk_io l (held.sp_asid -w 1) (clamp_page held.sp_page_no) 0 (disk0_sem l) 0 loc write_blk)

-- The frame is filled: its entry in the swap pool, and the entry of the page table.
unfoldable pub install : (asid segment missing v_page f loc : Word) → Act (Unit {0})
unfolding modify_lo
install asid segment missing v_page f loc = do
  disable_ints true
  modify_swap f (λ e. record e {
    sp_asid = asid;
    sp_seg_no = segment;
    sp_page_no = missing;
    sp_pte_entry = u_entry (asid -w 1) v_page;
  })
  modify_lo (u_entry (asid -w 1) v_page) (λ lo. present loc)
  tlbclr
  disable_ints false

-- `SYSCALL(VERHOGEN, (int) &swapPoolSem, 0, 0); LDST(oldTLB);`
unfoldable pub back_to_user : Places → Word → Act (Unit {0})
unfolding give_pool
back_to_user l asid = do
  give_pool l
  u ← load_uproc (asid -w 1)
  leave (ldst (u.u_old_trap tlb_trap))

unfoldable pub pager : Places → Act (Unit {0})
unfolding get_frame evict install back_to_user take_pool give_pool terminate_call
pager l = do
  take_pool l
  asid ← read (λ m. asid_of m.entry_hi)
  u ← load_uproc (asid -w 1)
  let old_tlb = u.u_old_trap tlb_trap
  let cause = exc_code old_tlb.s_cause
  when (not (cause == tlb_inv_lw) && not (cause == tlb_inv_sw)) (do give_pool l; terminate_call l)
  let segment = shr old_tlb.s_asid 30
  let missing = page_of old_tlb
  let v_page = clamp_page missing
  when (segment == kuseg3_no) (do
    shared ← read (λ m. (m.kuseg3.pte_table v_page).pte_entry_lo)
    -- `==` binds tighter than `&`: the entry is masked with 1.
    when (not (bit_and shared (if shl 0x2 8 == shl 0x2 8 then 1 else 0) == 0))
        (back_to_user l asid))
  f ← get_frame
  loc ← read (λ m. frame_addr m f)
  evict l f loc
  disk_io l (asid -w 1) v_page 0 (disk0_sem l) 0 loc read_blk
  install asid segment missing v_page f loc
  back_to_user l asid
