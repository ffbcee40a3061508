-- ===== src/Hashing/Formats.antt =====
-- pkg/state/utils.go and pkg/util/format.go: the two versions of the formats.
use zkrollup_go.Base.{
  ◌≡◌, refl, ◌↔◌, inl, inr, ℕ, ◌<◌, ◌^◌, List, ◌∷◌, some, true, ltb, Bool-cases, arith,
}
use zkrollup_go.Base.Int.{ℤ, pos, negsuc, abs, is_zero_ℤ}
use zkrollup_go.Base.Bytes.{of_bytes}
use zkrollup_go.Base.Bytes.Digits.{of_bytes-nat_bytes}
use zkrollup_go.Hashing.{
  decimal, to_string_ℤ, format_nonce, util_format_nonce, format_big_int, util_format_big_int,
}
use zkrollup_go.Hashing.Decimal.{StartsDigit, decimal-StartsDigit}

signed_text : (text rest : List ℕ) → StartsDigit text → b'-' ∷ rest ≡ text → ⊥
signed_text text rest (c, others, e, d) same = let first : b'-' ≡ c = cc in ground arith

-- The two packages write a nonce alike exactly below 2 ^ 63: above, pkg/state takes it for negative.
pub format_nonce-util_format_nonce :
    (nonce : ℕ) → nonce < 2 ^ 64 → (format_nonce nonce ≡ util_format_nonce nonce) ↔ (nonce < 2 ^ 63)
unfolding format_nonce util_format_nonce to_string_ℤ
format_nonce-util_format_nonce nonce h = (
  λ same. elim (Bool-cases (ltb nonce (2 ^ 63))) [
    | inl low ↦ ground arith
    | inr high ↦ absurd (
        signed_text (decimal nonce) _ (decimal-StartsDigit nonce) (rw (format_nonce, high) at same))
  ],
  λ low. let below : ltb nonce (2 ^ 63) ≡ true = ground arith in rw (format_nonce, below),
)

zero_abs : (value : ℤ) → is_zero_ℤ value ≡ true → 0 ≡ abs value
zero_abs (pos n) h = ground arith
zero_abs (negsuc n) h = ground arith

-- The bytes of an amount are those of its magnitude, in both packages, and 0 has one byte.
pub format_big_int_lem :
    (value : ℤ)
    → (of_bytes 0 (format_big_int (some value)) ≡ abs value)
      × (util_format_big_int (some value) ≡ some (format_big_int (some value)))
unfolding format_big_int util_format_big_int of_bytes
format_big_int_lem value = elim (Bool-cases (is_zero_ℤ value)) [
  | inl nothing ↦ (rw (format_big_int, nothing) (zero_abs value nothing), refl)
  | inr something ↦ (rw (format_big_int, something) (of_bytes-nat_bytes (abs value)), refl)
]
