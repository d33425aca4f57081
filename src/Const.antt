-- ===== src/Const.antt =====
-- h/const.h: the constants that the kernel uses, under their names.
use patrick_landon_os.Base.{ℕ, ◌+◌, ◌-◌, ◌*◌, Word}

abbrev pub page_size : ℕ
page_size = 4096

abbrev pub word_len : ℕ
word_len = 4

-- Addresses of the states saved and loaded at an exception.
abbrev pub syscall_new : ℕ
syscall_new = 0x200003D4

abbrev pub syscall_old : ℕ
syscall_old = 0x20000348

abbrev pub prog_trap_new : ℕ
prog_trap_new = 0x200002BC

abbrev pub prog_trap_old : ℕ
prog_trap_old = 0x20000230

abbrev pub tlb_mgmt_new : ℕ
tlb_mgmt_new = 0x200001A4

abbrev pub tlb_mgmt_old : ℕ
tlb_mgmt_old = 0x20000118

abbrev pub inter_new : ℕ
inter_new = 0x2000008C

abbrev pub inter_old : ℕ
inter_old = 0x20000000

-- Bits of the status register.
abbrev pub all_off : Word
all_off = 0

abbrev pub vm_not_on : Word
vm_not_on = 0

abbrev pub kernel_on : Word
kernel_on = 0

abbrev pub kernel_off : Word
kernel_off = 0x8

abbrev pub inter_unmasked : Word
inter_unmasked = 0xFF00

abbrev pub inter_on : Word
inter_on = 0x4

abbrev pub ploc_time_on : Word
ploc_time_on = 0x08000000

-- The exception code in the cause register; `10 << 2`.
abbrev pub reserved_instr : Word
reserved_instr = 10 * 4

abbrev pub cause_reg_mask : Word
cause_reg_mask = 0xFFFFFF00

-- Pending interrupt lines in the cause register.
abbrev pub line1 : Word
line1 = 0x200

abbrev pub line2 : Word
line2 = 0x400

abbrev pub line3 : Word
line3 = 0x800

abbrev pub line4 : Word
line4 = 0x1000

abbrev pub line5 : Word
line5 = 0x2000

abbrev pub line6 : Word
line6 = 0x4000

abbrev pub line7 : Word
line7 = 0x8000

-- Pending devices of a line.
abbrev pub dev0 : Word
dev0 = 0x1

abbrev pub dev1 : Word
dev1 = 0x2

abbrev pub dev2 : Word
dev2 = 0x4

abbrev pub dev3 : Word
dev3 = 0x8

abbrev pub dev4 : Word
dev4 = 0x10

abbrev pub dev5 : Word
dev5 = 0x20

abbrev pub dev6 : Word
dev6 = 0x40

abbrev pub dev7 : Word
dev7 = 0x80

abbrev pub quantum : Word
quantum = 5000

abbrev pub interval : Word
interval = 100000

-- The system calls of the nucleus.
abbrev pub create_process : ℕ
create_process = 1

abbrev pub terminate_process : ℕ
terminate_process = 2

abbrev pub verhogen : ℕ
verhogen = 3

abbrev pub passeren : ℕ
passeren = 4

abbrev pub spec_trap_vec : ℕ
spec_trap_vec = 5

abbrev pub get_cpu_time : ℕ
get_cpu_time = 6

abbrev pub wait_clock : ℕ
wait_clock = 7

abbrev pub wait_io : ℕ
wait_io = 8

abbrev pub max_proc : ℕ
max_proc = 20

-- The addresses of the two dummy descriptors of the semaphore list.
abbrev pub max_int : ℕ
max_int = 0xFFFFFFFF

abbrev pub min_int : ℕ
min_int = 0x0

abbrev pub device_cnt : ℕ
device_cnt = 49

abbrev pub success : Word
success = 0

-- `-1` as a word.
abbrev pub fail : Word
fail = 0xFFFFFFFF

abbrev pub tlb_trap : ℕ
tlb_trap = 0

abbrev pub prog_trap : ℕ
prog_trap = 1

abbrev pub sys_trap : ℕ
sys_trap = 2

abbrev pub ploc_int : ℕ
ploc_int = 1

abbrev pub iv_tim_int : ℕ
iv_tim_int = 2

abbrev pub disk_int : ℕ
disk_int = 3

abbrev pub tape_int : ℕ
tape_int = 4

abbrev pub netw_int : ℕ
netw_int = 5

abbrev pub prnt_int : ℕ
prnt_int = 6

abbrev pub term_int : ℕ
term_int = 7

abbrev pub dev_int_offset : ℕ
dev_int_offset = 3

abbrev pub dev_cnt : ℕ
dev_cnt = 8

abbrev pub term_cnt : ℕ
term_cnt = 3

abbrev pub status_mask : Word
status_mask = 0xFF

abbrev pub ready : Word
ready = 1

abbrev pub ack : Word
ack = 1

abbrev pub state_reg_num : ℕ
state_reg_num = 31

-- `sizeof(pcb_t)`, `sizeof(semd_t)` and `sizeof(int)` on the 32-bit target.
abbrev pub sizeof_pcb : ℕ
sizeof_pcb = 192

abbrev pub sizeof_semd : ℕ
sizeof_semd = 12

abbrev pub sizeof_int : ℕ
sizeof_int = 4

-- Constants of phase 3.
abbrev pub tlb_inv_sw : ℕ
tlb_inv_sw = 2

abbrev pub tlb_inv_lw : ℕ
tlb_inv_lw = 3

abbrev pub vm_on : ℕ
vm_on = 0x02000000

abbrev pub max_pages : ℕ
max_pages = 32

abbrev pub max_uproc : ℕ
max_uproc = 2

abbrev pub pool_size : ℕ
pool_size = max_uproc * 2

abbrev pub mag_no : ℕ
mag_no = 0x2A

abbrev pub seg_table_start : ℕ
seg_table_start = 0x20000500

abbrev pub end_rom_resv_frame : ℕ
end_rom_resv_frame = 0x20000000

abbrev pub kseg_os_pte_size : ℕ
kseg_os_pte_size = 64

abbrev pub kuseg_pte_size : ℕ
kuseg_pte_size = 32

abbrev pub tape_frames : ℕ
tape_frames = 8

abbrev pub disk_frames : ℕ
disk_frames = 8

abbrev pub os_pages : ℕ
os_pages = kseg_os_pte_size * page_size

abbrev pub kseg_os_end : ℕ
kseg_os_end = end_rom_resv_frame + os_pages

abbrev pub u_proc_stack : ℕ
u_proc_stack = kseg_os_end - (max_uproc * 3 - 1) * page_size

abbrev pub disk_dma_buffer : ℕ
disk_dma_buffer = u_proc_stack - disk_frames * page_size

abbrev pub tape_dma_buffer : ℕ
tape_dma_buffer = disk_dma_buffer - tape_frames * page_size

abbrev pub kuseg3_no : ℕ
kuseg3_no = 0x11

abbrev pub trap_types : ℕ
trap_types = 3

abbrev pub eot : ℕ
eot = 0

abbrev pub eof : ℕ
eof = 1

abbrev pub seek_cyl : ℕ
seek_cyl = 2

abbrev pub read_blk : ℕ
read_blk = 3

abbrev pub write_blk : ℕ
write_blk = 4

abbrev pub transm_char : ℕ
transm_char = 2

abbrev pub char_transmd : ℕ
char_transmd = 5

-- The system calls of the support level.
abbrev pub write_terminal : ℕ
write_terminal = 10

abbrev pub terminate : ℕ
terminate = 18

abbrev pub busy : Word
busy = 3

abbrev pub devreg_len : ℕ
devreg_len = 4

abbrev pub devreg_size : ℕ
devreg_size = 16

abbrev pub tran_command : ℕ
tran_command = 3
