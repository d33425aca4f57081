-- ===== src/Interrupts/Lines/Pending.antt =====
-- `findLineNo` and `findDevNo` against the bits of the words that they read.
use patrick_landon_os.Base.{
  ℕ, zero, suc, ◌+◌, ◌*◌, ◌^◌, ◌≤◌, ◌<◌, ◌≡◌, Word, Option, none, some, arith, ◌==◌, digit,
  digit-lt_two, bit_and-power,
}
use native.Mathlib.Nat.{pow-suc}
use patrick_landon_os.Interrupts.Lines.{is_on, find_line_no, find_dev_no}

power_positive : (k : ℕ) → 0 < 2 ^ k
power_positive zero = omega arith
power_positive (suc k) = rw pow-suc (omega (arith, power_positive k))

times_one : (d p : ℕ) → d < 2 → 0 < p → ((d * p) == p) ≡ (d == 1)
times_one zero p h q = ground arith
times_one (suc zero) p h q = ground arith
times_one (suc (suc d)) p h q = absurd (omega arith)

-- The test of one bit.
is_on-digit : (w k : ℕ) → is_on w (2 ^ k) ≡ (digit w k == 1)
is_on-digit w k =
    rw (bit_and-power w k) (times_one (digit w k) (2 ^ k) (digit-lt_two w k) (power_positive k))

-- The bits from `from` up to `n`, which does not count, are 0.
abbrev pub AreClear : (ℕ → ℕ) → ℕ → ℕ → Type 0
AreClear bit from zero = Unit
AreClear bit from (suc n) = (from ≤ n → bit n ≡ 0) × AreClear bit from n

-- The number of the lowest bit that is 1, from `from` up to 7; none if they are all 0.
abbrev pub IsLowest : (ℕ → ℕ) → ℕ → Option ℕ → Type 0
IsLowest bit from none = AreClear bit from 8
IsLowest bit from (some n) = (from ≤ n) × (n < 8) × (bit n ≡ 1) × AreClear bit from n

-- The interrupt line is the lowest of the lines 1 to 7 whose bit in the cause register, 8 places up, is
-- set; there is no line number exactly where none of these bits is set.
pub find_line_no-IsLowest :
    (cause : Word) → IsLowest (λ n. digit cause (8 + n)) 1 (find_line_no cause)
unfolding find_line_no
find_line_no-IsLowest cause = ground (
  arith,
  is_on-digit cause 9,
  is_on-digit cause 10,
  is_on-digit cause 11,
  is_on-digit cause 12,
  is_on-digit cause 13,
  is_on-digit cause 14,
  is_on-digit cause 15,
  digit-lt_two cause 9,
  digit-lt_two cause 10,
  digit-lt_two cause 11,
  digit-lt_two cause 12,
  digit-lt_two cause 13,
  digit-lt_two cause 14,
  digit-lt_two cause 15,
)

-- The device is the lowest of the devices 0 to 7 whose bit in the line's word is set; there is no
-- device number exactly where none of these bits is set.
pub find_dev_no-IsLowest : (bit_map : Word) → IsLowest (digit bit_map) 0 (find_dev_no bit_map)
unfolding find_dev_no
find_dev_no-IsLowest w = ground (
  arith,
  is_on-digit w 0,
  is_on-digit w 1,
  is_on-digit w 2,
  is_on-digit w 3,
  is_on-digit w 4,
  is_on-digit w 5,
  is_on-digit w 6,
  is_on-digit w 7,
  digit-lt_two w 0,
  digit-lt_two w 1,
  digit-lt_two w 2,
  digit-lt_two w 3,
  digit-lt_two w 4,
  digit-lt_two w 5,
  digit-lt_two w 6,
  digit-lt_two w 7,
)
