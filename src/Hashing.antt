-- ===== src/Hashing.antt =====
-- pkg/state/transaction.go, pkg/state/utils.go and pkg/util/format.go: what is hashed of a
-- transaction, and the texts of amounts and nonces. SHA-256, Keccak-256 and ECDSA are parameters. A
-- text is the list of its bytes.
pub mod Decimal
pub mod Separation
pub mod Formats
use zkrollup_go.Base.{
  ℕ, zero, suc, ◌+◌, ◌-◌, ◌*◌, ◌/◌, ◌%◌, ◌^◌, List, [], ◌∷◌, ◌++◌, Option, none, some, Bool, true,
  false, not, ◌&&◌, ltb, leb, nat_eqb, if◌then◌else◌, length,
}
use zkrollup_go.Base.Int.{ℤ, pos, negsuc, abs, is_zero_ℤ, neg_part}
use zkrollup_go.Base.Bytes.{be_bytes, nat_bytes, of_bytes}
use zkrollup_go.Outcome.{
  M, raise_if, or_raise, or_panic, pure, ◌>>=◌, ◌>>◌, invalid_key, sign_failed, bad_signature,
}
use zkrollup_go.State.{Transaction}

-- `int64(n)` of an unsigned number of 64 bits
abbrev pub to_int64 : ℕ → ℤ
to_int64 n = if ltb n (2 ^ 63) then pos n else negsuc (2 ^ 64 - n - 1)

digits_fuel : ℕ → ℕ → List ℕ → List ℕ
digits_fuel zero x acc = acc
digits_fuel (suc fuel) x acc =
    let rest = digits_fuel fuel (x / 10) ((48 + x % 10) ∷ acc) in if nat_eqb x 0 then acc else rest

-- the digits of a number in base ten
unfoldable pub decimal : ℕ → List ℕ
unfolding digits_fuel
decimal x = if nat_eqb x 0 then 48 ∷ [] else digits_fuel x x []

-- `big.Int.String()`
unfoldable pub to_string_ℤ : ℤ → List ℕ
unfolding decimal
to_string_ℤ (pos n) = decimal n
to_string_ℤ (negsuc n) = b'-' ∷ decimal (suc n)

abbrev pub is_digit : ℕ → Bool
is_digit c = leb 48 c && leb c 57

unfoldable pub of_digits : ℕ → List ℕ → Option ℕ
of_digits acc [] = some acc
of_digits acc (c ∷ cs) =
    let rest = of_digits (acc * 10 + (c - 48)) cs in if is_digit c then rest else none

-- at least one digit
unfoldable pub parse_digits : List ℕ → Option ℕ
unfolding of_digits
parse_digits [] = none
parse_digits (c ∷ cs) = of_digits 0 (c ∷ cs)

abbrev pub positive : Option ℕ → Option ℤ
positive none = none
positive (some n) = some (pos n)

abbrev pub negative : Option ℕ → Option ℤ
negative none = none
negative (some zero) = some (pos 0)
negative (some (suc n)) = some (negsuc n)

-- `ParseAmount`: `SetString` with base 10 takes a sign and then digits only.
unfoldable pub parse_amount : List ℕ → Option ℤ
unfolding parse_digits
parse_amount [] = none
parse_amount (c ∷ cs) =
    if nat_eqb c b'-'
    then negative (parse_digits cs)
    else if nat_eqb c b'+'
    then positive (parse_digits cs)
    else positive (parse_digits (c ∷ cs))

-- `FormatBigInt` of pkg/state
unfoldable pub format_big_int : Option ℤ → List ℕ
format_big_int none = 0 ∷ []
format_big_int (some value) = if is_zero_ℤ value then 0 ∷ [] else nat_bytes (abs value)

-- `FormatNonce` of pkg/state
unfoldable pub format_nonce : ℕ → List ℕ
unfolding to_string_ℤ
format_nonce nonce = to_string_ℤ (to_int64 nonce)

-- pkg/util: `FormatBigInt`, where nil is dereferenced, `FormatNonce` and `FormatAmount`
unfoldable pub util_format_big_int : Option ℤ → Option (List ℕ)
util_format_big_int none = none
util_format_big_int (some value) = some (if is_zero_ℤ value then 0 ∷ [] else nat_bytes (abs value))

unfoldable pub util_format_nonce : ℕ → List ℕ
unfolding decimal
util_format_nonce nonce = decimal nonce

-- The bytes that `Transaction.Hash` hashes; `none` is a nil amount, which is dereferenced.
unfoldable pub hashed_bytes : Transaction → Option (List ℕ)
hashed_bytes tx = elim tx.amount [
  | none ↦ none
  | some amount ↦ some (
      tx.tx_type % 256
      ∷ (be_bytes 20 tx.from
          ++ (be_bytes 20 tx.to
              ++ (nat_bytes (abs amount)
                  ++ (be_bytes 8 tx.nonce ++ (tx.payload ++ be_bytes 8 tx.gas))))))
]

-- the bytes that `CalculateTransactionHash` hashes
unfoldable pub calculated_bytes : Transaction → List ℕ
unfolding format_big_int format_nonce
calculated_bytes tx =
    tx.tx_type % 256
    ∷ (be_bytes 20 tx.from
        ++ (be_bytes 20 tx.to
            ++ (format_big_int tx.amount
                ++ (format_nonce tx.nonce ++ (tx.payload ++ nat_bytes (abs (to_int64 tx.gas)))))))

-- `CalculateTransactionHash`
unfoldable pub calculate_transaction_hash : (List ℕ → List ℕ) → Transaction → List ℕ
unfolding calculated_bytes
calculate_transaction_hash keccak tx = keccak (calculated_bytes tx)

-- SHA-256, and ECDSA as go-ethereum has it: `none` is an error.
pub record Crypto (Key : Type 0) : Type 0 where
  pub sha256 : List ℕ → List ℕ
  pub to_ecdsa : List ℕ → Option Key
  pub sign : List ℕ → Key → Option (List ℕ)

module _ {Key : Type 0} (crypto : Crypto Key) where
  -- `Transaction.Hash`, which HashToBytes and HashToEthHash give as a slice and as a `common.Hash`
  unfoldable pub hash : Transaction → Option (List ℕ)
  unfolding hashed_bytes
  hash tx = elim (hashed_bytes tx) [ none ↦ none | some bytes ↦ some (crypto.sha256 bytes) ]

  -- `SignTransaction`
  unfoldable pub sign_transaction : Transaction → List ℕ → M Unit (List ℕ)
  unfolding hash
  sign_transaction tx private_key = do
    digest ← or_panic (hash tx)
    key ← or_raise invalid_key (crypto.to_ecdsa private_key)
    signature ← or_raise sign_failed (crypto.sign digest key)
    raise_if (not (nat_eqb (length signature) 65)) bad_signature
    pure signature
