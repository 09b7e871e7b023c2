-- ===== src/Common/Bits.antt =====
-- The bitwise or of numbers whose bits are apart, which is their sum.
use Prim.Native.Nat.{
  ℕ, zero, suc, ◌+◌, ◌*◌, ◌/◌, ◌%◌, ◌^◌, ◌≤◌, ◌<◌, max, bit_or, digits, bit_or-bitwise,
}
use mathlib.Core.Path.{◌≡◌, refl, ap, ◌∙◌}
use native.Mathlib.Nat.{pow-suc}
use native.Mathlib.Omega.{arith}

abbrev or_digits : ℕ → ℕ → ℕ → ℕ
or_digits n a b = digits (λ b. b) max n a b

or_digits_fuel : (n m a b : ℕ) → a ≤ n → a ≤ m → or_digits n a b ≡ or_digits m a b
or_digits_fuel zero zero a b p q = refl
or_digits_fuel zero (suc m) zero b p q = refl
or_digits_fuel zero (suc m) (suc a) b p q = absurd (omega arith)
or_digits_fuel (suc n) zero zero b p q = refl
or_digits_fuel (suc n) zero (suc a) b p q = absurd (omega arith)
or_digits_fuel (suc n) (suc m) zero b p q = refl
or_digits_fuel (suc n) (suc m) (suc a) b p q =
    omega (arith, or_digits_fuel n m (suc a / 2) (b / 2) (omega arith) (omega arith))

pub zero-bit_or : (b : ℕ) → bit_or 0 b ≡ b
zero-bit_or b = bit_or-bitwise 0 b

-- The lowest digit of the result.
bit_or_step : (a b : ℕ) → bit_or a b ≡ bit_or (a / 2) (b / 2) * 2 + max (a % 2) (b % 2)
bit_or_step zero b = omega (arith, zero-bit_or b, zero-bit_or (b / 2))
bit_or_step (suc a) b = omega (
  arith,
  bit_or-bitwise (suc a) b,
  bit_or-bitwise (suc a / 2) (b / 2),
  or_digits_fuel a (suc a / 2) (suc a / 2) (b / 2) (omega arith) (omega arith),
)

bit_or-double : (a x : ℕ) → bit_or a (x * 2) ≡ bit_or (a / 2) x * 2 + a % 2
bit_or-double a x =
    let half : x * 2 / 2 ≡ x = omega arith in
    let even : x * 2 % 2 ≡ 0 = omega arith in bit_or_step a (x * 2) ∙ rw (half, even) (omega arith)

-- `a | b << k` for `a` below 2 ^ k.
pub bit_or_apart : (k a b : ℕ) → a < 2 ^ k → bit_or a (b * 2 ^ k) ≡ a + b * 2 ^ k
bit_or_apart zero zero b h = zero-bit_or (b * 2 ^ 0) ∙ omega arith
bit_or_apart zero (suc a) b h = absurd (omega arith)
bit_or_apart (suc k) a b h =
    let power : 2 ^ suc k ≡ 2 ^ k * 2 = pow-suc 2 k in
    let shifted : b * 2 ^ suc k ≡ b * 2 ^ k * 2 = ap (λ x. b * x) power ∙ omega arith in
    let low : a / 2 < 2 ^ k = omega (arith, power) in
    rw shifted (bit_or-double a (b * 2 ^ k) ∙ rw (bit_or_apart k (a / 2) b low) (omega arith))
