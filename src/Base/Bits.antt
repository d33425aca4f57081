-- ===== src/Base/Bits.antt =====
-- A test of one bit: `w & 2^k` is `2^k` times the digit at place `k`.
use Prim.Native.Nat.{
  ℕ, zero, suc, ◌+◌, ◌*◌, ◌/◌, ◌%◌, ◌^◌, ◌≤◌, ◌<◌, min, bit_and, digits, bit_and-bitwise,
}
use mathlib.Core.Path.{◌≡◌, refl}
use native.Mathlib.Omega.{arith}
use native.Mathlib.Nat.{pow-suc}

-- The digits of the smaller number are read off one by one.
abbrev and_by_digit : ℕ → ℕ → ℕ → ℕ
and_by_digit n a b = digits (λ b. zero) min n a b

and_by_digit-rounds : (n m a b : ℕ) → a ≤ n → a ≤ m → and_by_digit n a b ≡ and_by_digit m a b
and_by_digit-rounds zero zero a b p q = refl
and_by_digit-rounds zero (suc m) zero b p q = refl
and_by_digit-rounds zero (suc m) (suc a) b p q = absurd (omega arith)
and_by_digit-rounds (suc n) zero zero b p q = refl
and_by_digit-rounds (suc n) zero (suc a) b p q = absurd (omega arith)
and_by_digit-rounds (suc n) (suc m) zero b p q = refl
and_by_digit-rounds (suc n) (suc m) (suc a) b p q =
    omega (arith, and_by_digit-rounds n m (suc a / 2) (b / 2) (omega arith) (omega arith))

pub zero-bit_and : (b : ℕ) → bit_and 0 b ≡ 0
zero-bit_and b = bit_and-bitwise 0 b

pub bit_and-halves : (a b : ℕ) → bit_and a b ≡ bit_and (a / 2) (b / 2) * 2 + min (a % 2) (b % 2)
bit_and-halves zero b = omega (arith, zero-bit_and b, zero-bit_and (b / 2))
bit_and-halves (suc a) b = omega (
  arith,
  bit_and-bitwise (suc a) b,
  bit_and-bitwise (suc a / 2) (b / 2),
  and_by_digit-rounds a (suc a / 2) (suc a / 2) (b / 2) (omega arith) (omega arith),
)

bit_and-zero_upto : (n a : ℕ) → a ≤ n → bit_and a 0 ≡ 0
bit_and-zero_upto n zero h = refl
bit_and-zero_upto zero (suc a) h = absurd (omega arith)
bit_and-zero_upto (suc n) (suc a) h =
    omega (arith, bit_and-halves (suc a) 0, bit_and-zero_upto n (suc a / 2) (omega arith))

-- The digit of `a` at place `k`.
abbrev pub digit : ℕ → ℕ → ℕ
digit a zero = a % 2
digit a (suc k) = digit (a / 2) k

bit_and-double : (a p d : ℕ) → bit_and (a / 2) p ≡ d * p → bit_and a (p * 2) ≡ d * (p * 2)
bit_and-double a p d h =
    let half : p * 2 / 2 ≡ p = omega arith in
    let low : min (a % 2) (p * 2 % 2) ≡ 0 = omega arith in
    rw (bit_and-halves a (p * 2), low, half, h) (omega arith)

pub bit_and-power : (a k : ℕ) → bit_and a (2 ^ k) ≡ digit a k * 2 ^ k
bit_and-power a zero =
    omega (arith, bit_and-halves a 1, bit_and-zero_upto (a / 2) (a / 2) (omega arith))
bit_and-power a (suc k) =
    rw pow-suc (bit_and-double a (2 ^ k) (digit (a / 2) k) (bit_and-power (a / 2) k))

pub digit-lt_two : (a k : ℕ) → digit a k < 2
digit-lt_two a zero = omega arith
digit-lt_two a (suc k) = digit-lt_two (a / 2) k
