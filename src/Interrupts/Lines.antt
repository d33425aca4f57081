-- ===== src/Interrupts/Lines.antt =====
-- phase2/interrupts.c: `findLineNo`, `findDevNo` and `getDeviceReg`. The result -1 is `none`.
pub mod Pending
use patrick_landon_os.Base.{
  ℕ, ◌+◌, ◌*◌, ◌-◌, Bool, Word, bit_and, Option, none, some, ◌==◌, if◌then◌else◌,
}
use patrick_landon_os.Machine.Memory.{Ptr}
use patrick_landon_os.Const.{
  line1, line2, line3, line4, line5, line6, line7, dev0, dev1, dev2, dev3, dev4, dev5, dev6, dev7,
  ploc_int, iv_tim_int, disk_int, tape_int, netw_int, prnt_int, term_int,
}

-- `(w & bits) == bits`
abbrev pub is_on : Word → Word → Bool
is_on w bits = bit_and w bits == bits

unfoldable pub find_line_no : Word → Option ℕ
find_line_no cause =
    if is_on cause line1
    then some ploc_int
    else if is_on cause line2
    then some iv_tim_int
    else if is_on cause line3
    then some disk_int
    else if is_on cause line4
    then some tape_int
    else if is_on cause line5
    then some netw_int
    else if is_on cause line6
    then some prnt_int
    else if is_on cause line7
    then some term_int
    else none

unfoldable pub find_dev_no : Word → Option ℕ
find_dev_no bit_map =
    if is_on bit_map dev0
    then some 0
    else if is_on bit_map dev1
    then some 1
    else if is_on bit_map dev2
    then some 2
    else if is_on bit_map dev3
    then some 3
    else if is_on bit_map dev4
    then some 4
    else if is_on bit_map dev5
    then some 5
    else if is_on bit_map dev6
    then some 6
    else if is_on bit_map dev7
    then some 7
    else none

unfoldable pub device_reg : (line_no dev_no : ℕ) → Ptr
device_reg line_no dev_no = 0x10000050 + (line_no - 3) * 0x80 + dev_no * 0x10
