-- ===== src/Rpc/Params.antt =====
-- pkg/rpc/server.go, handleSendTransaction: from the parameters of a request to a transaction.
pub mod Form
use zkrollup_go.Base.{
  ℕ, List, [], ◌∷◌, Option, none, some, String, Map, lookup, Bool, true, false, ◌&&◌, nat_eqb,
  string_eq,
}
use zkrollup_go.State.{Address, Transaction}
use zkrollup_go.Hashing.{parse_amount}

-- A JSON value, as far as a type assertion tells them apart: a text, a number (a float64 is an `F`),
-- or anything else.
pub data Value (F : Type 0) : Type 0 where
  text : List ℕ → Value F
  float : F → Value F
  other : Value F

abbrev pub Fields : Type 0 → Type 0
Fields F = Map String (Value F)

-- encoding/json on the parameters, Go's conversions of a float64, the hexadecimal texts of
-- go-ethereum, and Keccak-256.
pub record Library (F : Type 0) : Type 0 where
  pub strings : List ℕ → Option (List (List ℕ))
  pub objects : List ℕ → Option (List (Fields F))
  pub to_uint8 : F → ℕ
  pub to_uint64 : F → ℕ
  pub hex_to_address : List ℕ → Address
  pub from_hex : List ℕ → List ℕ
  pub keccak : List ℕ → List ℕ

-- A value, or the message of the response that ends the handler.
pub data Check (A : Type 0) : Type 0 where
  refused : String → Check A
  passed : A → Check A

infixl 5 ◌>>=◌ ◌>>◌
abbrev pub ◌>>=◌ : {A B : Type 0} → Check A → (A → Check B) → Check B
c >>= f = elim c [ refused message ↦ refused message | passed a ↦ f a ]

abbrev pub ◌>>◌ : {A B : Type 0} → Check A → Check B → Check B
c >> k = c >>= λ _. k

-- `len(s) < 2 || s[:2] != "0x"` is that the prefix is missing.
unfoldable pub has_prefix : List ℕ → Bool
has_prefix [] = false
has_prefix (a ∷ []) = false
has_prefix (a ∷ b ∷ rest) = nat_eqb a b'0' && nat_eqb b b'x'

-- The address that a missing `to` stands for, in 40 digits.
abbrev pub zero_text : List ℕ
zero_text =
    b'0' ∷ b'x' ∷ b'0' ∷ b'0' ∷ b'0' ∷ b'0' ∷ b'0' ∷ b'0' ∷ b'0' ∷ b'0' ∷ b'0' ∷ b'0' ∷ b'0' ∷ b'0'
    ∷ b'0' ∷ b'0' ∷ b'0' ∷ b'0' ∷ b'0' ∷ b'0' ∷ b'0' ∷ b'0' ∷ b'0' ∷ b'0' ∷ b'0' ∷ b'0' ∷ b'0'
    ∷ b'0' ∷ b'0' ∷ b'0' ∷ b'0' ∷ b'0' ∷ b'0' ∷ b'0' ∷ b'0' ∷ b'0' ∷ b'0' ∷ b'0' ∷ b'0' ∷ b'0'
    ∷ b'0' ∷ b'0' ∷ []

abbrev pub or_refuse : {A : Type 0} → Option A → String → Check A
or_refuse none message = refused message
or_refuse (some a) message = passed a

abbrev pub refuse_unless : Bool → String → Check (Unit {0})
refuse_unless true message = passed tt
refuse_unless false message = refused message

abbrev pub or_zero : Option (List ℕ) → List ℕ
or_zero none = zero_text
or_zero (some t) = t

module _ {F : Type 0} where
  abbrev pub as_text : Option (Value F) → Option (List ℕ)
  as_text (some (text t)) = some t
  as_text _ = none

  abbrev pub as_float : Option (Value F) → Option F
  as_float (some (float f)) = some f
  as_float _ = none

  unfoldable pub parse_transaction : Library F → Fields F → Check Transaction
  unfolding has_prefix parse_amount
  parse_transaction lib fields = do
    from ← or_refuse (as_text (lookup "from" fields)) "Invalid from address"
    refuse_unless (has_prefix from) "Invalid from address"
    let to = or_zero (as_text (lookup "to" fields))
    amount ← or_refuse (as_text (lookup "amount" fields)) "Invalid amount"
    nonce ← or_refuse (as_float (lookup "nonce" fields)) "Invalid nonce"
    gas ← or_refuse (as_float (lookup "gas" fields)) "Invalid gas"
    data_text ← or_refuse (as_text (lookup "data" fields)) "Invalid data"
    signature ← or_refuse (as_text (lookup "signature" fields)) "Invalid signature"
    tx_type ← or_refuse (as_float (lookup "type" fields)) "Invalid type"
    value ← or_refuse (parse_amount amount) "Invalid amount format"
    passed (record {
      tx_type = lib.to_uint8 tx_type;
      from = lib.hex_to_address from;
      to = lib.hex_to_address to;
      amount = some value;
      nonce = lib.to_uint64 nonce;
      payload = lib.from_hex data_text;
      gas = lib.to_uint64 gas;
      signature = lib.from_hex signature;
    })
