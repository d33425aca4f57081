-- ===== src/Support/Pool/Entries.antt =====
-- The low word of an entry that `pager` makes valid, or invalid.
use patrick_landon_os.Base.{
  ◌<◌, ◌≡◌, ◌∙◌, arith, Word, digit, shr, bit_and, digit-bit_and, digit-bit_or, halved,
  halved-bit_and, halved-bit_or, bit_or-zero, bit_and-ones, digit-lt_two, word_mod,
}
use patrick_landon_os.Support.Pager.{present, absent}

pub present-valid : (loc : Word) → digit (present loc) 9 ≡ 1
present-valid loc =
    omega (
      arith,
      digit-bit_or 9 (bit_and loc 0xFFFFF000) 0x600,
      digit-lt_two (bit_and loc 0xFFFFF000) 9,
    )

pub absent-invalid : (lo : Word) → digit (absent lo) 9 ≡ 0
absent-invalid lo = omega (arith, digit-bit_and 9 lo 0xCFF)

-- The frame number of the entry is that of the address.
pub present-frame : (loc : Word) → loc < word_mod → shr (present loc) 12 ≡ shr loc 12
present-frame loc h =
    let top : halved 12 (present loc) ≡ halved 12 loc =
      halved-bit_or 12 (bit_and loc 0xFFFFF000) 0x600
      ∙ bit_or-zero (halved 12 (bit_and loc 0xFFFFF000))
      ∙ halved-bit_and 12 loc 0xFFFFF000
      ∙ bit_and-ones 20 (halved 12 loc) (omega arith) in
    omega (arith, top)
