-- ===== src/Hashing/Decimal.antt =====
-- pkg/state/utils.go: the text of an amount is read back as the amount.
use zkrollup_go.Base.{
  ◌≡◌, refl, ap, ◌∙◌, inl, inr, ℕ, zero, suc, ◌+◌, ◌*◌, ◌/◌, ◌%◌, ◌≤◌, List, [], ◌∷◌, some,
  Bool-cases, nat_eqb, true, false, arith,
}
use zkrollup_go.Base.Int.{ℤ, pos, negsuc}
use zkrollup_go.Hashing.{
  digits_fuel, decimal, to_string_ℤ, is_digit, of_digits, parse_digits, parse_amount, positive,
  negative,
}

-- A text that starts with a digit.
abbrev pub StartsDigit : List ℕ → Type 0
StartsDigit text = (c : ℕ) × (rest : List ℕ) × (text ≡ c ∷ rest) × (is_digit c ≡ true)

digit : (x : ℕ) → is_digit (48 + x % 10) ≡ true
digit x = ground arith

digits_fuel-StartsDigit :
    (fuel x : ℕ) (acc : List ℕ) → StartsDigit acc → StartsDigit (digits_fuel fuel x acc)
unfolding digits_fuel
digits_fuel-StartsDigit zero x acc h = h
digits_fuel-StartsDigit (suc fuel) x acc h = elim (Bool-cases (nat_eqb x 0)) [
  | inl none_left ↦ rw (none_left) h
  | inr more ↦ rw (more) (
      digits_fuel-StartsDigit fuel (x / 10) ((48 + x % 10) ∷ acc) (48 + x % 10, acc, refl, digit x))
]

pub decimal-StartsDigit : (x : ℕ) → StartsDigit (decimal x)
unfolding decimal digits_fuel
decimal-StartsDigit zero = (48, [], refl, refl)
decimal-StartsDigit (suc k) =
    let more : nat_eqb (suc k) 0 ≡ false = ground arith in
    rw (more) (
      digits_fuel-StartsDigit k (suc k / 10) ((48 + suc k % 10) ∷ [])
        (48 + suc k % 10, [], refl, digit (suc k)))

of_digits_step :
    (acc x : ℕ) (rest : List ℕ)
    → of_digits acc ((48 + x % 10) ∷ rest) ≡ of_digits (acc * 10 + x % 10) rest
unfolding of_digits
of_digits_step acc x rest = rw (digit x) (ap (λ n. of_digits n rest) (omega arith))

of_digits-digits_fuel :
    (fuel x : ℕ) (acc : List ℕ) → x ≤ fuel → of_digits 0 (digits_fuel fuel x acc) ≡ of_digits x acc
unfolding digits_fuel
of_digits-digits_fuel zero x acc h = ap (λ n. of_digits n acc) (omega arith)
of_digits-digits_fuel (suc fuel) x acc h = elim (Bool-cases (nat_eqb x 0)) [
  | inl none_left ↦ rw (none_left) (ap (λ n. of_digits n acc) (ground arith))
  | inr more ↦ rw (more) (
      of_digits-digits_fuel fuel (x / 10) ((48 + x % 10) ∷ acc) (ground arith)
      ∙ of_digits_step (x / 10) x acc
      ∙ ap (λ n. of_digits n acc) (omega arith))
]

of_digits-decimal : (x : ℕ) → of_digits 0 (decimal x) ≡ some x
unfolding decimal
of_digits-decimal x = elim (Bool-cases (nat_eqb x 0)) [
  | inl zero_text ↦ rw (zero_text) (unfold of_digits in ap some (ground arith))
  | inr more ↦ rw (more) (of_digits-digits_fuel x x [] (omega arith) ∙ (unfold of_digits in refl))
]

parse_digits_lem : (text : List ℕ) → StartsDigit text → parse_digits text ≡ of_digits 0 text
unfolding parse_digits
parse_digits_lem text (c, rest, e, d) = rw (e)

parse_amount_lem :
    (text : List ℕ) → StartsDigit text → parse_amount text ≡ positive (parse_digits text)
unfolding parse_amount
parse_amount_lem text (c, rest, e, d) =
    let minus : nat_eqb c b'-' ≡ false = ground arith in
    let plus : nat_eqb c b'+' ≡ false = ground arith in rw (e, minus, plus)

parse_digits-decimal : (x : ℕ) → parse_digits (decimal x) ≡ some x
parse_digits-decimal x = parse_digits_lem (decimal x) (decimal-StartsDigit x) ∙ of_digits-decimal x

-- An amount that the server prints is read back as itself: ParseAmount inverts the decimal text of
-- any integer, whatever its size and sign.
pub parse_amount-to_string_ℤ : (z : ℤ) → parse_amount (to_string_ℤ z) ≡ some z
unfolding to_string_ℤ parse_amount
parse_amount-to_string_ℤ (pos n) =
    parse_amount_lem (decimal n) (decimal-StartsDigit n) ∙ ap positive (parse_digits-decimal n)
parse_amount-to_string_ℤ (negsuc n) = ap negative (parse_digits-decimal (suc n))
