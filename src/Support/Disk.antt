-- ===== src/Support/Disk.antt =====
-- phase3/initProc.c: `disableInts`, `getDeviceReg`, `diskIO` and `tapeToDisk`.
pub mod Runs
pub mod Tape
use patrick_landon_os.Support.Vm.{
  Act, Places, starve, pure, ◌>>=◌, ◌>>◌, read, change, when, syscall, end_with, write_register,
  dev_sem,
}
use patrick_landon_os.Support.Terminate.{terminate_call}
use patrick_landon_os.Machine.Memory.{Ptr}
use patrick_landon_os.Base.{
  Word, ℕ, Bool, shl, ◌+w◌, if◌then◌else◌, suc, ◌+◌, ◌-w◌, bit_and, ◌*◌, true, ◌==◌, ◌-◌, bit_or,
  ◌*w◌, ◌||◌, false, ◌/◌, not, zero,
}
use patrick_landon_os.Const.{
  dev_cnt, wait_io, passeren, tape_dma_buffer, disk_int, eot, page_size, dev_int_offset, inter_on,
  seek_cyl, eof, tape_int, inter_unmasked, read_blk, ready, terminate, verhogen, write_blk,
}

unfoldable pub disable_ints : Bool → Act (Unit {0})
disable_ints disable =
    if disable
    then change (λ m. record m { cp0_status = bit_and m.cp0_status 0xFFFF00FE })
    else change
        (λ m. record m { cp0_status = bit_or (bit_or m.cp0_status (inter_on / 4)) inter_unmasked })

-- The fields of a device register, from its address.
abbrev pub get_device_reg : (line_no dev_no : Word) → Ptr
get_device_reg line_no dev_no = (0x10000050 +w (line_no -w 3) *w 0x80) +w dev_no *w 0x10

abbrev pub d_command_of : Ptr → Ptr
d_command_of r = r + 4

abbrev pub d_data0_of : Ptr → Ptr
d_data0_of r = r + 8

abbrev pub t_transm_command_of : Ptr → Ptr
t_transm_command_of r = r + 12

-- One operation of the disk: the command is given and awaited with interrupts off.
abbrev pub command_disk : (disk disk_num command : Word) → Act Word
command_disk disk disk_num command = do
  write_register (d_command_of disk) command
  syscall wait_io disk_int disk_num 0

-- `cyl << 8`
abbrev pub shl8 : Word → Word
shl8 w = shl w 8

abbrev pub shl16 : Word → Word
shl16 w = shl w 16

unfoldable pub disk_io :
    (l : Places) (sector cyl head : Word) (sem : Ptr) (disk_num mem_buf command : Word)
    → Act (Unit {0})
unfolding disable_ints terminate_call
disk_io l sector cyl head sem disk_num mem_buf command = do
  syscall passeren sem 0 0
  disable_ints true
  status ← command_disk (get_device_reg disk_int disk_num) disk_num (bit_or (shl8 cyl) seek_cyl)
  disable_ints false
  when (not (status == ready)) (terminate_call l)
  disable_ints true
  write_register (d_data0_of (get_device_reg disk_int disk_num)) mem_buf
  status' ←
      command_disk (get_device_reg disk_int disk_num) disk_num
        (bit_or (bit_or (shl16 head) (shl8 sector)) command)
  disable_ints false
  when (not (status' == ready)) (terminate_call l)
  syscall verhogen sem 0 0
  pure tt

-- `&devSemArray[(DEVCNT*(DISKINT-DEVINTOFFSET))]`
abbrev pub disk0_sem : Places → Ptr
disk0_sem l = dev_sem l (dev_cnt * (disk_int - dev_int_offset))

-- `TAPEDMABUFFER + ((asid-1)*PAGESIZE)`
abbrev pub tape_buffer : Word → Ptr
tape_buffer asid = tape_dma_buffer +w (asid -w 1) *w page_size

-- The loop of `tapeToDisk`: the register's mark is that of the last block read.
unfoldable pub tape_loop : Places → ℕ → (asid i : Word) → Act (Unit {0})
unfolding terminate_call
tape_loop l zero asid i = starve
tape_loop l (suc k) asid i = do
  mark ← read (λ m. m.marks m.blocks_read)
  if mark == eot || mark == eof then pure tt else do
    write_register (d_data0_of (get_device_reg tape_int (asid -w 1))) (tape_buffer asid)
    write_register (d_command_of (get_device_reg tape_int (asid -w 1))) read_blk
    change (λ m. record m { blocks_read = suc m.blocks_read })
    status ← syscall wait_io tape_int (asid -w 1) 0
    when (not (status == ready)) (terminate_call l)
    disk_io l (asid -w 1) i 0 (disk0_sem l) 0 (tape_buffer asid) write_blk
    tape_loop l k asid (i +w 1)

-- The rounds given bound the length of the tape.
unfoldable pub tape_to_disk : Places → ℕ → Word → Act (Unit {0})
unfolding tape_loop
tape_to_disk l rounds asid = tape_loop l rounds asid 0
