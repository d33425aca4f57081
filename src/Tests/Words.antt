-- ===== src/Tests/Words.antt =====
-- The theorems on interrupt words, device numbers and states, at concrete numbers.
use patrick_landon_os.Base.{
  ◌≡◌, refl, arith, true, false, ◌<◌, digit, ◌∷◌, ◌+◌, replicate, ◌-◌, ◌≤◌, ℕ,
}
use patrick_landon_os.Const.{term_int, device_cnt}
use patrick_landon_os.Exceptions.Calls.{wait_index}
use patrick_landon_os.Types.{State, zero_state}
use patrick_landon_os.Interrupts.Lines.Pending.{IsLowest, find_line_no-IsLowest}
use patrick_landon_os.Interrupts.Lines.{find_line_no}
use patrick_landon_os.Interrupts.Index.{
  IsDevice, flag, device_index-injective, wait_index-device_index, device_index_range,
}
use patrick_landon_os.Interrupts.{device_index}

-- Lines 3 and 5 are pending.
find_line_no-IsLowest_example : IsLowest (λ n. digit 0x2800 (8 + n)) 1 (find_line_no 0x2800)
find_line_no-IsLowest_example = find_line_no-IsLowest 0x2800

disk_two : IsDevice 3 2
disk_two = record { above = omega arith; below = omega arith; device = omega arith }

terminal_six : IsDevice 7 6
terminal_six = record { above = omega arith; below = omega arith; device = omega arith }

wait_index-device_index_example : wait_index 7 6 (flag true) ≡ device_index 7 6 true
wait_index-device_index_example = wait_index-device_index 7 6 true terminal_six

device_index-injective_example : ◌≡◌ {A = ℕ} 3 3 × ◌≡◌ {A = ℕ} 2 2 × (3 ≡ term_int → false ≡ false)
device_index-injective_example = device_index-injective 3 3 2 2 false false disk_two disk_two refl

device_index_range_example :
    (7 < term_int → device_index 7 6 true < device_cnt - 1)
    × (6 < 5 → device_index 7 6 true < device_cnt - 1)
    × (device_index term_int 5 false ≡ device_cnt - 2)
    × (device_index term_int 5 true ≡ device_cnt - 1)
    × (7 ≡ term_int → 6 ≤ 6 → device_cnt < device_index 7 6 true)
device_index_range_example = device_index_range 7 6 true terminal_six

busy_state : State
busy_state = record zero_state { s_cause = 3; s_pc = 0x400; s_reg = 9 ∷ 8 ∷ replicate 29 7 }
