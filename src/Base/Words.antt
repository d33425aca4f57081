-- ===== src/Base/Words.antt =====
-- 32-bit machine words as bit patterns, and the two's complement reading that C's `int` has.
use Prim.Native.Nat.{ℕ, ◌+◌, ◌-◌, ◌*◌, ◌/◌, ◌%◌, ◌^◌}
use mathlib.Core.Bool.{Bool, ◌||◌, not}
use patrick_landon_os.Base.Tests.{leb, ◌==◌, if◌then◌else◌}

abbrev pub Word : Type 0
Word = ℕ

abbrev pub word_mod : ℕ
word_mod = 2 ^ 32

abbrev pub word_half : ℕ
word_half = 2 ^ 31

infixl 65 ◌+w◌ ◌-w◌
abbrev pub ◌+w◌ : Word → Word → Word
a +w b = (a + b) % word_mod

abbrev pub ◌-w◌ : Word → Word → Word
a -w b = (a + word_mod - b % word_mod) % word_mod

infixl 70 ◌*w◌
abbrev pub ◌*w◌ : Word → Word → Word
a *w b = a * b % word_mod

-- As an `int`: below zero, at most zero, above zero.
abbrev pub is_neg : Word → Bool
is_neg a = leb word_half a

abbrev pub is_npos : Word → Bool
is_npos a = a == 0 || is_neg a

abbrev pub is_pos : Word → Bool
is_pos a = not (is_npos a)

-- The size of the `int` that the pattern stands for.
abbrev pub magnitude : Word → ℕ
magnitude a = if is_neg a then word_mod - a else a

-- `a / b` on `int`, rounded towards zero; the divisor is not 0.
abbrev pub sdiv : Word → Word → Word
sdiv a b =
    let q = (magnitude a / magnitude b) % word_mod in
    let negated = (word_mod - q) % word_mod in
    if is_neg a then if is_neg b then q else negated else if is_neg b then negated else q

-- `a << k`, and `a >> k` on `unsigned int` and on `int`.
abbrev pub shl : Word → ℕ → Word
shl a k = a * 2 ^ k % word_mod

abbrev pub shr : Word → ℕ → Word
shr a k = a / 2 ^ k

abbrev pub sar : Word → ℕ → Word
sar a k = if is_neg a then shr a k + (word_mod - shr word_mod k) else shr a k
