-- ===== src/Base/Bytes/Digits.antt =====
-- Laws of the fixed-width and the minimal digits.
use zkrollup_go.Base.{
  ℕ, zero, suc, ◌+◌, ◌*◌, ◌/◌, ◌%◌, ◌^◌, ◌≤◌, ◌<◌, ◌≡◌, refl, inl, inr, nat_eqb, Bool-cases, ap,
  ◌∙◌, List, [], ◌∷◌, arith, length,
}
use native.Mathlib.Nat.{
  div-add-mod, mul-add-mod_self_left, mod-eq_of_lt, mod-lt, pow-suc, mul-le-mul_right,
}
use zkrollup_go.Base.Bytes.{be_bytes, nat_bytes, bytes_fuel, of_bytes}

byte : (b : ℕ) → b % 256 ≤ 255
byte b = omega arith

mul-comm_256 : (n : ℕ) → 256 ^ suc n ≡ 256 * 256 ^ n
mul-comm_256 n = omega (arith, pow-suc 256 n)

mod_split : (x d : ℕ) → 0 < d → x % (256 * d) ≡ x / d % 256 * d + x % d
mod_split x d h =
    ap (λ n. n % (256 * d)) whole
    ∙ mul-add-mod_self_left (256 * d) (x / d / 256) (x / d % 256 * d + x % d)
    ∙ mod-eq_of_lt small
  where
    whole : x ≡ 256 * d * (x / d / 256) + (x / d % 256 * d + x % d)
    whole = omega (arith, div-add-mod x d, ap (λ n. d * n) (div-add-mod (x / d) 256))

    small : x / d % 256 * d + x % d < 256 * d
    small = omega (arith, mod-lt x h, mul-le-mul_right d (byte (x / d)))

power_pos : (n : ℕ) → 0 < 256 ^ n
power_pos zero = omega arith
power_pos (suc n) = omega (arith, power_pos n, pow-suc 256 n)

-- A number is given back by its digits, as far as they go.
pub of_bytes-be_bytes : (n acc x : ℕ) → of_bytes acc (be_bytes n x) ≡ acc * 256 ^ n + x % 256 ^ n
unfolding of_bytes be_bytes
of_bytes-be_bytes zero acc x = omega arith
of_bytes-be_bytes (suc n) acc x =
    of_bytes-be_bytes n (acc * 256 + x / 256 ^ n % 256) x
    ∙ omega (
      arith,
      mod_split x (256 ^ n) (power_pos n),
      pow-suc 256 n,
      ap (λ p. acc * p) (pow-suc 256 n),
      ap (λ p. x % p) (mul-comm_256 n),
    )

pub length-be_bytes : (n x : ℕ) → length (be_bytes n x) ≡ n
unfolding be_bytes
length-be_bytes zero x = refl
length-be_bytes (suc n) x = ap suc (length-be_bytes n x)

of_bytes-bytes_fuel :
    (fuel x : ℕ) (acc : List ℕ) → x ≤ fuel → of_bytes 0 (bytes_fuel fuel x acc) ≡ of_bytes x acc
unfolding of_bytes bytes_fuel
of_bytes-bytes_fuel zero x acc h = ap (λ n. of_bytes n acc) (omega arith)
of_bytes-bytes_fuel (suc fuel) x acc h = elim (Bool-cases (nat_eqb x 0)) [
  | inl none_left ↦ rw (none_left) (ap (λ n. of_bytes n acc) (ground arith))
  | inr more ↦ rw (more) (
      of_bytes-bytes_fuel fuel (x / 256) (x % 256 ∷ acc) (ground arith)
      ∙ ap (λ n. of_bytes n acc) (omega arith))
]

-- `SetBytes` of `Bytes()` is the number.
pub of_bytes-nat_bytes : (x : ℕ) → of_bytes 0 (nat_bytes x) ≡ x
unfolding nat_bytes of_bytes
of_bytes-nat_bytes x = of_bytes-bytes_fuel x x [] (omega arith)
