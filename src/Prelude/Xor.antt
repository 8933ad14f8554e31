-- ===== src/Prelude/Xor.antt =====
-- Laws of the exclusive or of two numbers, digit by digit.
use Prim.Native.Nat.{
  ℕ, zero, suc, ◌+◌, ◌*◌, ◌/◌, ◌%◌, ◌^◌, ◌≤◌, ◌<◌, bit_xor, bit_xor-bitwise, digits, differ,
}
use mathlib.Core.Path.{◌≡◌, refl, ap}
use native.Mathlib.Omega.{arith}

abbrev xor_digits : ℕ → ℕ → ℕ → ℕ
xor_digits n a b = digits (λ b. b) differ n a b

differ_bits : (a b : ℕ) → a < 2 → b < 2 → differ a b ≡ (a + b) % 2
differ_bits zero zero h k = refl
differ_bits zero (suc zero) h k = refl
differ_bits zero (suc (suc b)) h k = absurd (omega arith)
differ_bits (suc zero) zero h k = refl
differ_bits (suc zero) (suc zero) h k = refl
differ_bits (suc zero) (suc (suc b)) h k = absurd (omega arith)
differ_bits (suc (suc a)) b h k = absurd (omega arith)

xor_digits_fuel : (n m a b : ℕ) → a ≤ n → a ≤ m → xor_digits n a b ≡ xor_digits m a b
xor_digits_fuel zero zero a b p q = refl
xor_digits_fuel zero (suc m) zero b p q = refl
xor_digits_fuel zero (suc m) (suc a) b p q = absurd (omega arith)
xor_digits_fuel (suc n) zero zero b p q = refl
xor_digits_fuel (suc n) zero (suc a) b p q = absurd (omega arith)
xor_digits_fuel (suc n) (suc m) zero b p q = refl
xor_digits_fuel (suc n) (suc m) (suc a) b p q =
    ap (λ d. d * 2 + differ (suc a % 2) (b % 2))
      (xor_digits_fuel n m (suc a / 2) (b / 2) (omega arith) (omega arith))

zero-bit_xor : (b : ℕ) → bit_xor 0 b ≡ b
zero-bit_xor b = bit_xor-bitwise 0 b

bit_xor_step : (a b : ℕ) → bit_xor a b ≡ bit_xor (a / 2) (b / 2) * 2 + (a + b) % 2
bit_xor_step zero b = omega (arith, zero-bit_xor b, zero-bit_xor (b / 2))
bit_xor_step (suc a) b = omega (
  arith,
  bit_xor-bitwise (suc a) b,
  bit_xor-bitwise (suc a / 2) (b / 2),
  differ_bits (suc a % 2) (b % 2) (omega arith) (omega arith),
  xor_digits_fuel a (suc a / 2) (suc a / 2) (b / 2) (omega arith) (omega arith),
)

bit_xor_fuel : (n a b : ℕ) → a ≤ n → b ≤ n → bit_xor (bit_xor a b) b ≡ a
bit_xor_fuel zero zero zero h k = refl
bit_xor_fuel zero zero (suc b) h k = absurd (omega arith)
bit_xor_fuel zero (suc a) b h k = absurd (omega arith)
bit_xor_fuel (suc n) a b h k =
    let half : bit_xor a b / 2 ≡ bit_xor (a / 2) (b / 2) = omega (arith, bit_xor_step a b) in
    let same : bit_xor (bit_xor a b / 2) (b / 2) ≡ bit_xor (bit_xor (a / 2) (b / 2)) (b / 2) =
      ap (λ c. bit_xor c (b / 2)) half in
    omega (
      arith,
      bit_xor_step a b,
      bit_xor_step (bit_xor a b) b,
      same,
      bit_xor_fuel n (a / 2) (b / 2) (omega arith) (omega arith),
    )

-- Twice with the same number is nothing.
pub bit_xor_twice : (a b : ℕ) → bit_xor (bit_xor a b) b ≡ a
bit_xor_twice a b = bit_xor_fuel (a + b) a b (omega arith) (omega arith)

-- It needs no more digits.
pub bit_xor_lt : (k a b : ℕ) → a < 2 ^ k → b < 2 ^ k → bit_xor a b < 2 ^ k
bit_xor_lt zero zero zero h l = omega (arith, zero-bit_xor 0)
bit_xor_lt zero zero (suc b) h l = absurd (omega arith)
bit_xor_lt zero (suc a) b h l = absurd (omega arith)
bit_xor_lt (suc k) a b h l =
    omega (arith, bit_xor_step a b, bit_xor_lt k (a / 2) (b / 2) (omega arith) (omega arith))
