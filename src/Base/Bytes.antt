-- ===== src/Base/Bytes.antt =====
-- Byte strings as lists of numbers below 256: the fixed-width and the minimal big-endian digits.
pub mod Digits
use zkrollup_go.Base.{ℕ, zero, suc, ◌+◌, ◌*◌, ◌/◌, ◌%◌, ◌^◌, List, [], ◌∷◌, nat_eqb, if◌then◌else◌}

-- The n bytes of an array or of `binary.BigEndian.PutUint64`, the most significant first.
unfoldable pub be_bytes : ℕ → ℕ → List ℕ
be_bytes zero x = []
be_bytes (suc n) x = (x / 256 ^ n % 256) ∷ be_bytes n x

bytes_fuel : ℕ → ℕ → List ℕ → List ℕ
bytes_fuel zero x acc = acc
bytes_fuel (suc f) x acc =
    let rest = bytes_fuel f (x / 256) ((x % 256) ∷ acc) in if nat_eqb x 0 then acc else rest

-- `big.Int.Bytes()` of a magnitude: no leading zero byte, and no byte at all for 0.
unfoldable pub nat_bytes : ℕ → List ℕ
unfolding bytes_fuel
nat_bytes x = bytes_fuel x x []

-- The number that a big-endian byte string stands for, after the digits in `acc`.
unfoldable pub of_bytes : ℕ → List ℕ → ℕ
of_bytes acc [] = acc
of_bytes acc (b ∷ bs) = of_bytes (acc * 256 + b) bs
