-- ===== src/Interrupts/Index.antt =====
-- Where `waitio` and `ioTrapHandler` look for the semaphore of a device, and the device's register.
use patrick_landon_os.Base.{ℕ, ◌≤◌, ◌<◌, ◌≡◌, Bool, true, false, arith, Word, ◌-◌}
use patrick_landon_os.Const.{device_cnt, disk_int, term_int}
use patrick_landon_os.Exceptions.Calls.{wait_index}
use patrick_landon_os.Interrupts.Lines.{device_reg}
use patrick_landon_os.Interrupts.{device_index}

-- A device line, and a device of it.
pub record IsDevice (line_no dev_no : ℕ) : Type 0 where
  pub above : disk_int ≤ line_no
  pub below : line_no ≤ term_int
  pub device : dev_no < 8

-- `read` as the number that the system call has in its register.
abbrev pub flag : Bool → Word
flag true = 1
flag false = 0

-- For every device the system call waits on the semaphore that the interrupt handler signals.
pub wait_index-device_index :
    (line_no dev_no : ℕ) (reading : Bool)
    → IsDevice line_no dev_no
    → wait_index line_no dev_no (flag reading) ≡ device_index line_no dev_no reading
unfolding wait_index device_index
wait_index-device_index line_no dev_no reading d = ground arith

-- Two devices share a semaphore only if they are the same: the same line and device and, on the
-- terminal line, the same direction.
pub device_index-injective :
    (line_no line' dev_no dev' : ℕ) (reading reading' : Bool)
    → IsDevice line_no dev_no
    → IsDevice line' dev'
    → device_index line_no dev_no reading ≡ device_index line' dev' reading'
    → (line_no ≡ line') × (dev_no ≡ dev') × (line_no ≡ term_int → reading ≡ reading')
unfolding device_index
device_index-injective line_no line' dev_no dev' reading reading' d d' e = ground arith

-- The semaphores of the devices lie before the clock's, the last of the array, but for the terminals
-- with numbers from 5: terminal 5 has, for reading, the clock's own semaphore, and terminals 6 and 7
-- have semaphores past the end of the array.
pub device_index_range :
    (line_no dev_no : ℕ) (reading : Bool)
    → IsDevice line_no dev_no
    → (line_no < term_int → device_index line_no dev_no reading < device_cnt - 1)
      × (dev_no < 5 → device_index line_no dev_no reading < device_cnt - 1)
      × (device_index term_int 5 false ≡ device_cnt - 2)
      × (device_index term_int 5 true ≡ device_cnt - 1)
      × (line_no ≡ term_int → 6 ≤ dev_no → device_cnt < device_index line_no dev_no reading)
unfolding device_index
device_index_range line_no dev_no reading d = ground arith

-- The registers of the devices are distinct and lie in the area that the bus keeps for them.
pub device_reg-injective :
    (line_no line' dev_no dev' : ℕ)
    → IsDevice line_no dev_no
    → IsDevice line' dev'
    → device_reg line_no dev_no ≡ device_reg line' dev'
    → (line_no ≡ line') × (dev_no ≡ dev') × (device_reg line_no dev_no < 0x100002D0)
unfolding device_reg
device_reg-injective line_no line' dev_no dev' d d' e = ground arith
