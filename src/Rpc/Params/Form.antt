-- ===== src/Rpc/Params/Form.antt =====
-- pkg/rpc/server.go, handleSendTransaction: the form of the parameters that are not refused.
use zkrollup_go.Base.{
  ◌≡◌, refl, ap, sym, ◌∙◌, ℕ, List, [], ◌∷◌, Option, none, some, String, lookup, Bool, true, false,
  string_eq, arith,
}
use mathlib.Core.Option.{some-injective}
use zkrollup_go.Base.Int.{ℤ}
use zkrollup_go.State.{Transaction}
use zkrollup_go.Hashing.{parse_amount}
use zkrollup_go.Rpc.Params.{
  Value, text, float, other, Fields, Library, Check, refused, passed, ◌>>=◌, ◌>>◌, has_prefix,
  or_refuse, refuse_unless, or_zero, as_text, as_float, parse_transaction,
}

-- The parameters spell a transaction: the texts and the numbers are there, the sender has the prefix
-- "0x", and the amount is a decimal number. A recipient that is no text is the address zero.
pub record IsForm {F : Type 0} (lib : Library F) (fields : Fields F) (tx : Transaction)
    : Type 0 where
  pub from : List ℕ
  pub from_digits : List ℕ
  pub amount_digits : List ℕ
  pub payload_digits : List ℕ
  pub signature_digits : List ℕ
  pub nonce : F
  pub gas : F
  pub tx_type : F
  pub value : ℤ
  pub has_from : lookup "from" fields ≡ some (text from)
  pub has_prefix_0x : from ≡ b'0' ∷ b'x' ∷ from_digits
  pub has_amount : lookup "amount" fields ≡ some (text amount_digits)
  pub has_nonce : lookup "nonce" fields ≡ some (float nonce)
  pub has_gas : lookup "gas" fields ≡ some (float gas)
  pub has_data : lookup "data" fields ≡ some (text payload_digits)
  pub has_signature : lookup "signature" fields ≡ some (text signature_digits)
  pub has_type : lookup "type" fields ≡ some (float tx_type)
  pub has_value : parse_amount amount_digits ≡ some value
  pub same : tx ≡ record {
    tx_type = lib.to_uint8 tx_type;
    from = lib.hex_to_address from;
    to = lib.hex_to_address (or_zero (as_text (lookup "to" fields)));
    amount = some value;
    nonce = lib.to_uint64 nonce;
    payload = lib.from_hex payload_digits;
    gas = lib.to_uint64 gas;
    signature = lib.from_hex signature_digits;
  }

prefix_form :
    (digits : List ℕ) → has_prefix digits ≡ true → (rest : List ℕ) × (digits ≡ b'0' ∷ b'x' ∷ rest)
unfolding has_prefix
prefix_form [] h = absurd (ground (arith, h))
prefix_form (a ∷ []) h = absurd (ground (arith, h))
prefix_form (a ∷ b ∷ rest) h = (rest, ground (arith, h))

text_there :
    {F : Type 0} (o : Option (Value F)) (digits : List ℕ)
    → as_text o ≡ some digits
    → o ≡ some (text digits)
text_there none digits e = cc
text_there (some (text t)) digits e = ap (λ d. some (text d)) (some-injective _ _ e)
text_there (some (float f)) digits e = cc
text_there (some other) digits e = cc

float_there : {F : Type 0} (o : Option (Value F)) (f : F) → as_float o ≡ some f → o ≡ some (float f)
float_there none f e = cc
float_there (some (text t)) f e = cc
float_there (some (float g)) f e = ap (λ x. some (float x)) (some-injective _ _ e)
float_there (some other) f e = cc

bind_passed :
    {A B : Type 0} (c : Check A) (f : A → Check B) (b : B)
    → (c >>= f) ≡ passed b
    → (a : A) × (c ≡ passed a) × (f a ≡ passed b)
bind_passed (refused message) f b e = cc
bind_passed (passed a) f b e = (a, refl, e)

refuse_passed :
    {A B : Type 0} (o : Option A) (message : String) (f : A → Check B) (b : B)
    → (or_refuse o message >>= f) ≡ passed b
    → (a : A) × (o ≡ some a) × (f a ≡ passed b)
refuse_passed none message f b e = cc
refuse_passed (some a) message f b e = (a, refl, e)

unless_passed :
    {B : Type 0} (ok : Bool) (message : String) (c : Check B) (b : B)
    → (refuse_unless ok message >> c) ≡ passed b
    → (ok ≡ true) × (c ≡ passed b)
unless_passed true message c b e = (refl, e)
unless_passed false message c b e = cc

passed-injective : {A : Type 0} (a b : A) → passed a ≡ passed b → a ≡ b
passed-injective a b e = cc

refused-ne-passed : {A : Type 0} (message : String) (a : A) → refused message ≡ passed a → ⊥
refused-ne-passed message a e = cc

module _ {F : Type 0} (lib : Library F) (fields : Fields F) where
  -- What is read from parameters of the form is the transaction that they spell.
  pub parse_transaction-form :
      (tx : Transaction) → IsForm lib fields tx → parse_transaction lib fields ≡ passed tx
  unfolding parse_transaction has_prefix
  parse_transaction-form tx f =
      rw
        (
          parse_transaction,
          f.has_from,
          ap has_prefix f.has_prefix_0x,
          f.has_amount,
          f.has_nonce,
          f.has_gas,
          f.has_data,
          f.has_signature,
          f.has_type,
          f.has_value,
          f.same,
        )
        refl

  -- Parameters that are not refused are of the form.
  pub IsForm-passed :
      (tx : Transaction) → parse_transaction lib fields ≡ passed tx → IsForm lib fields tx
  unfolding parse_transaction
  IsForm-passed tx e =
      let (from, has_from, e1) = refuse_passed (as_text (lookup "from" fields)) _ _ tx e in
      let (prefixed, e2) = unless_passed (has_prefix from) _ _ tx e1 in
      let (digits, spelled) = prefix_form from prefixed in
      let (amount, has_amount, e3) = refuse_passed (as_text (lookup "amount" fields)) _ _ tx e2 in
      let (nonce, has_nonce, e4) = refuse_passed (as_float (lookup "nonce" fields)) _ _ tx e3 in
      let (gas, has_gas, e5) = refuse_passed (as_float (lookup "gas" fields)) _ _ tx e4 in
      let (data_text, has_data, e6) = refuse_passed (as_text (lookup "data" fields)) _ _ tx e5 in
      let (signature, has_signature, e7) =
        refuse_passed (as_text (lookup "signature" fields)) _ _ tx e6 in
      let (tx_type, has_type, e8) = refuse_passed (as_float (lookup "type" fields)) _ _ tx e7 in
      let (value, has_value, e9) = refuse_passed (parse_amount amount) _ _ tx e8 in
      record {
        from = from;
        from_digits = digits;
        amount_digits = amount;
        payload_digits = data_text;
        signature_digits = signature;
        nonce = nonce;
        gas = gas;
        tx_type = tx_type;
        value = value;
        has_from = text_there (lookup "from" fields) from has_from;
        has_prefix_0x = spelled;
        has_amount = text_there (lookup "amount" fields) amount has_amount;
        has_nonce = float_there (lookup "nonce" fields) nonce has_nonce;
        has_gas = float_there (lookup "gas" fields) gas has_gas;
        has_data = text_there (lookup "data" fields) data_text has_data;
        has_signature = text_there (lookup "signature" fields) signature has_signature;
        has_type = float_there (lookup "type" fields) tx_type has_type;
        has_value = has_value;
        same = sym (passed-injective _ tx e9);
      }

  -- Parameters that are refused are not of the form.
  pub form_refused :
      (message : String) (tx : Transaction)
      → parse_transaction lib fields ≡ refused message
      → IsForm lib fields tx
      → ⊥
  form_refused message tx e f = refused-ne-passed message tx (sym e ∙ parse_transaction-form tx f)
