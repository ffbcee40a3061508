-- ===== src/Base/Bits.antt =====
-- Laws of the exclusive or, from the recursion on binary digits that the native operation means.
use Prim.Native.Nat.{
  ℕ, zero, suc, ◌+◌, ◌*◌, ◌/◌, ◌%◌, ◌≤◌, ◌<◌, bit_xor, digits, differ, bit_xor-bitwise,
}
use mathlib.Core.Path.{◌≡◌, refl, ap}
use native.Mathlib.Nat.{le_refl}
use native.Mathlib.Omega.{arith}

abbrev xor_digits : ℕ → ℕ → ℕ → ℕ
xor_digits n a b = digits (λ b. b) differ n a b

xor_digits_fuel : (n m a b : ℕ) → a ≤ n → a ≤ m → xor_digits n a b ≡ xor_digits m a b
xor_digits_fuel zero zero a b p q = refl
xor_digits_fuel zero (suc m) zero b p q = refl
xor_digits_fuel zero (suc m) (suc a) b p q = absurd (omega arith)
xor_digits_fuel (suc n) zero zero b p q = refl
xor_digits_fuel (suc n) zero (suc a) b p q = absurd (omega arith)
xor_digits_fuel (suc n) (suc m) zero b p q = refl
xor_digits_fuel (suc n) (suc m) (suc a) b p q =
    rw (xor_digits_fuel n m (suc a / 2) (b / 2) (omega arith) (omega arith))

differ_lem : (x y : ℕ) → x < 2 → y < 2 → differ x y ≡ (x + y) % 2
differ_lem zero y p q = omega arith
differ_lem (suc zero) zero p q = refl
differ_lem (suc zero) (suc zero) p q = refl
differ_lem (suc zero) (suc (suc y)) p q = absurd (omega arith)
differ_lem (suc (suc x)) y p q = absurd (omega arith)

-- The lowest digit of an exclusive or, and the rest.
pub bit_xor_step : (a b : ℕ) → bit_xor a b ≡ bit_xor (a / 2) (b / 2) * 2 + (a + b) % 2
bit_xor_step zero b = simp bit_xor-bitwise (omega arith)
bit_xor_step (suc a) b = omega (
  arith,
  bit_xor-bitwise (suc a) b,
  bit_xor-bitwise (suc a / 2) (b / 2),
  xor_digits_fuel a (suc a / 2) (suc a / 2) (b / 2) (omega arith) (le_refl _),
  differ_lem (suc a % 2) (b % 2) (omega arith) (omega arith),
)

bit_xor_swap_fuel :
    (n a b c : ℕ) → a ≤ n → b ≤ n → c ≤ n → bit_xor (bit_xor a b) c ≡ bit_xor (bit_xor a c) b
bit_xor_swap_fuel zero zero zero zero p q r = refl
bit_xor_swap_fuel zero zero zero (suc c) p q r = absurd (omega arith)
bit_xor_swap_fuel zero zero (suc b) c p q r = absurd (omega arith)
bit_xor_swap_fuel zero (suc a) b c p q r = absurd (omega arith)
bit_xor_swap_fuel (suc n) a b c p q r =
    let half_b : bit_xor a b / 2 ≡ bit_xor (a / 2) (b / 2) = omega (arith, bit_xor_step a b) in
    let half_c : bit_xor a c / 2 ≡ bit_xor (a / 2) (c / 2) = omega (arith, bit_xor_step a c) in
    omega (
      arith,
      bit_xor_step a b,
      bit_xor_step a c,
      bit_xor_step (bit_xor a b) c,
      bit_xor_step (bit_xor a c) b,
      ap (λ x. bit_xor x (c / 2)) half_b,
      ap (λ x. bit_xor x (b / 2)) half_c,
      bit_xor_swap_fuel n (a / 2) (b / 2) (c / 2) (omega arith) (omega arith) (omega arith),
    )

-- Two operands may change their places.
pub bit_xor_swap : (a b c : ℕ) → bit_xor (bit_xor a b) c ≡ bit_xor (bit_xor a c) b
bit_xor_swap a b c = bit_xor_swap_fuel (a + b + c) a b c (omega arith) (omega arith) (omega arith)
