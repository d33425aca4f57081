-- ===== src/Base/Digits.antt =====
-- Digits of `a & b` and `a | b`, and these operations on numbers that are shifted.
use Prim.Native.Nat.{
  ℕ, zero, suc, ◌+◌, ◌*◌, ◌/◌, ◌%◌, ◌≤◌, min, max, bit_and, bit_or, digits, bit_or-bitwise,
}
use mathlib.Core.Path.{◌≡◌, refl, ap, ◌∙◌}
use native.Mathlib.Omega.{arith}
use patrick_landon_os.Base.Bits.{digit, bit_and-halves}

abbrev or_by_digit : ℕ → ℕ → ℕ → ℕ
or_by_digit n a b = digits (λ b. b) max n a b

or_by_digit-rounds : (n m a b : ℕ) → a ≤ n → a ≤ m → or_by_digit n a b ≡ or_by_digit m a b
or_by_digit-rounds zero zero a b p q = refl
or_by_digit-rounds zero (suc m) zero b p q = refl
or_by_digit-rounds zero (suc m) (suc a) b p q = absurd (omega arith)
or_by_digit-rounds (suc n) zero zero b p q = refl
or_by_digit-rounds (suc n) zero (suc a) b p q = absurd (omega arith)
or_by_digit-rounds (suc n) (suc m) zero b p q = refl
or_by_digit-rounds (suc n) (suc m) (suc a) b p q =
    omega (arith, or_by_digit-rounds n m (suc a / 2) (b / 2) (omega arith) (omega arith))

zero-bit_or : (b : ℕ) → bit_or 0 b ≡ b
zero-bit_or b = bit_or-bitwise 0 b

bit_or-halves : (a b : ℕ) → bit_or a b ≡ bit_or (a / 2) (b / 2) * 2 + max (a % 2) (b % 2)
bit_or-halves zero b = omega (arith, zero-bit_or b, zero-bit_or (b / 2))
bit_or-halves (suc a) b = omega (
  arith,
  bit_or-bitwise (suc a) b,
  bit_or-bitwise (suc a / 2) (b / 2),
  or_by_digit-rounds a (suc a / 2) (suc a / 2) (b / 2) (omega arith) (omega arith),
)

bit_or-zero_upto : (n a : ℕ) → a ≤ n → bit_or a 0 ≡ a
bit_or-zero_upto n zero h = refl
bit_or-zero_upto zero (suc a) h = absurd (omega arith)
bit_or-zero_upto (suc n) (suc a) h =
    omega (arith, bit_or-halves (suc a) 0, bit_or-zero_upto n (suc a / 2) (omega arith))

pub bit_or-zero : (a : ℕ) → bit_or a 0 ≡ a
bit_or-zero a = bit_or-zero_upto a a (omega arith)

pub digit-bit_and : (k a b : ℕ) → digit (bit_and a b) k ≡ min (digit a k) (digit b k)
digit-bit_and zero a b = omega (arith, bit_and-halves a b)
digit-bit_and (suc k) a b =
    let half : bit_and a b / 2 ≡ bit_and (a / 2) (b / 2) = omega (arith, bit_and-halves a b) in
    ap (λ x. digit x k) half ∙ digit-bit_and k (a / 2) (b / 2)

pub digit-bit_or : (k a b : ℕ) → digit (bit_or a b) k ≡ max (digit a k) (digit b k)
digit-bit_or zero a b = omega (arith, bit_or-halves a b)
digit-bit_or (suc k) a b =
    let half : bit_or a b / 2 ≡ bit_or (a / 2) (b / 2) = omega (arith, bit_or-halves a b) in
    ap (λ x. digit x k) half ∙ digit-bit_or k (a / 2) (b / 2)

-- `k` times halved.
abbrev pub halved : ℕ → ℕ → ℕ
halved zero a = a
halved (suc k) a = halved k (a / 2)

pub halved-bit_or : (k a b : ℕ) → halved k (bit_or a b) ≡ bit_or (halved k a) (halved k b)
halved-bit_or zero a b = refl
halved-bit_or (suc k) a b =
    let half : bit_or a b / 2 ≡ bit_or (a / 2) (b / 2) = omega (arith, bit_or-halves a b) in
    ap (halved k) half ∙ halved-bit_or k (a / 2) (b / 2)

pub halved-bit_and : (k a b : ℕ) → halved k (bit_and a b) ≡ bit_and (halved k a) (halved k b)
halved-bit_and zero a b = refl
halved-bit_and (suc k) a b =
    let half : bit_and a b / 2 ≡ bit_and (a / 2) (b / 2) = omega (arith, bit_and-halves a b) in
    ap (halved k) half ∙ halved-bit_and k (a / 2) (b / 2)

-- `2 ^ k - 1`.
abbrev pub ones : ℕ → ℕ
ones zero = 0
ones (suc k) = ones k * 2 + 1

pub bit_and-ones : (k a : ℕ) → halved k a ≡ 0 → bit_and a (ones k) ≡ a
bit_and-ones zero a h = rw h refl
bit_and-ones (suc k) a h =
    let half : (ones k * 2 + 1) / 2 ≡ ones k = omega arith in
    let odd : (ones k * 2 + 1) % 2 ≡ 1 = omega arith in
    bit_and-halves a (ones k * 2 + 1) ∙ rw (half, odd) (omega (arith, bit_and-ones k (a / 2) h))
