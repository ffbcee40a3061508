-- ===== src/Client.antt =====
-- cmd/evm/main.go: the command-line client that deploys and calls contracts through a node's RPC
-- server. JSON, HTTP, files, Keccak-256 and ECDSA are parameters; a text is the list of its bytes.
pub mod Service
pub mod Sending
pub mod Refusal
pub mod Actions
use zkrollup_go.Base.{
  ℕ, zero, suc, ◌%◌, List, [], ◌∷◌, ◌++◌, Option, none, some, String, Bool, true, false, ◌||◌, not,
  nat_eqb, take, ◌==◌, string_eq, if◌then◌else◌,
}
use zkrollup_go.Base.Int.{ℤ, pos, negsuc}
use zkrollup_go.Base.Bytes.{be_bytes, nat_bytes}
use zkrollup_go.Outcome.{
  M, Outcome, ok, err, panic, pure, raise_if, or_raise, or_panic, ◌>>=◌, ◌>>◌, marshal_failed,
  request_failed, bad_status, bad_reply, rpc_failed, contract_required, file_failed, sign_failed,
  raise, key_required, bad_key, invalid_key, invalid_amount, unknown_action,
}
use zkrollup_go.State.{Address, Transaction, deploy_type, call_type}
use zkrollup_go.Hashing.{to_string_ℤ, decimal, parse_amount}
use zkrollup_go.Rpc.{hex}
use zkrollup_go.Rpc.Params.{Fields, text, float}

-- The parameters of a request: a list of texts, or of objects. A number of an object is exact here.
pub data Params : Type 0 where
  texts : List (List ℕ) → Params
  objects : List (Fields ℕ) → Params

pub record RpcRequest : Type 0 where
  pub method : String
  pub params : Params
  pub id : ℕ

-- The result is not parsed yet; an error has a code and a message.
pub record RpcResponse : Type 0 where
  pub result : List ℕ
  pub error : Option (ℤ × List ℕ)
  pub id : ℤ

-- encoding/json on the types of the client; `none` is an error.
pub record Json : Type 0 where
  pub marshal : RpcRequest → Option (List ℕ)
  pub unmarshal : List ℕ → Option RpcResponse
  pub unmarshal_nonce : List ℕ → Option ℕ
  pub unmarshal_hash : List ℕ → Option (List ℕ)

-- `hex.DecodeString`, the private key (a number) of its bytes with its address and signatures,
-- Keccak-256, the files, and `common.HexToAddress` and `Hex2Bytes`.
pub record Tools : Type 0 where
  pub decode_string : List ℕ → Option (List ℕ)
  pub to_ecdsa : List ℕ → Option ℕ
  pub pubkey_to_address : ℕ → Address
  pub sign : List ℕ → ℕ → Option (List ℕ)
  pub keccak : List ℕ → List ℕ
  pub read_file : List ℕ → Option (List ℕ)
  pub hex_to_address : List ℕ → Address
  pub hex_to_bytes : List ℕ → List ℕ
  pub split_args : List ℕ → List (List ℕ)

-- The flags of the command line, but for the URL of the server.
pub record Flags : Type 0 where
  pub private_key : List ℕ
  pub action : String
  pub amount : List ℕ
  pub contract_file : List ℕ
  pub method : List ℕ
  pub args : List ℕ
  pub gas : ℕ

abbrev pub is_empty : List ℕ → Bool
is_empty [] = true
is_empty (b ∷ bs) = false

abbrev pub is_some : {A : Type 0} → Option A → Bool
is_some none = false
is_some (some a) = true

-- `fmt.Sprintf("0x%x", bytes)`
abbrev pub hex_text : List ℕ → List ℕ
hex_text bytes = b'0' ∷ b'x' ∷ hex bytes

-- `tx.Amount.String()`, where nil is "<nil>"
unfoldable pub amount_text : Option ℤ → List ℕ
unfolding to_string_ℤ
amount_text none = b'<' ∷ b'n' ∷ b'i' ∷ b'l' ∷ b'>' ∷ []
amount_text (some value) = to_string_ℤ value

-- `amountBytes`: zero and negative amounts are one zero byte.
unfoldable pub amount_bytes : ℤ → List ℕ
amount_bytes (pos zero) = 0 ∷ []
amount_bytes (pos (suc n)) = nat_bytes (suc n)
amount_bytes (negsuc n) = 0 ∷ []

-- The hash that the client signs; `none` is a nil amount, which is dereferenced.
unfoldable pub get_transaction_hash : Tools → Transaction → Option (List ℕ)
unfolding amount_bytes decimal
get_transaction_hash tools tx = elim tx.amount [
  | none ↦ none
  | some amount ↦ some (
      tools.keccak (
        be_bytes 20 tx.from
        ++ (be_bytes 20 tx.to ++ (amount_bytes amount ++ (decimal tx.nonce ++ tx.payload)))))
]

unfoldable pub tx_params : Transaction → Fields ℕ
unfolding amount_text hex
tx_params tx =
    ("from", text (hex_text (be_bytes 20 tx.from)))
    ∷ ("to", text (hex_text (be_bytes 20 tx.to)))
    ∷ ("amount", text (amount_text tx.amount))
    ∷ ("nonce", float tx.nonce)
    ∷ ("gas", float tx.gas)
    ∷ ("data", text (hex_text tx.payload))
    ∷ ("signature", text (hex_text tx.signature))
    ∷ ("type", float (tx.tx_type % 256))
    ∷ []

-- the request of GetNonce
abbrev pub asking : Address → RpcRequest
asking address = record {
  method = "rollup_getNonce";
  params = texts (hex_text (be_bytes 20 address) ∷ []);
  id = 1;
}

-- the request of SendTransaction
abbrev pub sending : Transaction → RpcRequest
sending tx = record {
  method = "rollup_sendTransaction";
  params = objects (tx_params tx ∷ []);
  id = 1;
}

-- the transaction of a deployment, before it is signed
abbrev pub deployment : Flags → Address → Option ℤ → ℕ → List ℕ → Transaction
deployment flags from amount nonce bytecode = record {
  tx_type = deploy_type;
  from = from;
  to = 0;
  amount = amount;
  nonce = nonce;
  payload = bytecode;
  gas = flags.gas;
  signature = [];
}

-- the bytes of the arguments, in order
abbrev pub all_args : Tools → List (List ℕ) → List ℕ
all_args tools [] = []
all_args tools (arg ∷ more) = tools.hex_to_bytes arg ++ all_args tools more

abbrev pub arguments : Tools → List ℕ → List ℕ
arguments tools [] = []
arguments tools (b ∷ bs) = all_args tools (tools.split_args (b ∷ bs))

-- the transaction of a call, before it is signed
abbrev pub contract_call : Tools → Flags → Address → Option ℤ → ℕ → Transaction
contract_call tools flags from amount nonce = record {
  tx_type = call_type;
  from = from;
  to = tools.hex_to_address flags.contract_file;
  amount = amount;
  nonce = nonce;
  payload = take 4 (tools.keccak flags.method) ++ arguments tools flags.args;
  gas = flags.gas;
  signature = [];
}

-- A POST request is answered by a status and a body, or not at all.
module _ {S : Type 0} (json : Json) (post : List ℕ → M S (Option (ℕ × List ℕ))) where
  -- `call`, up to the result, which `unmarshal` reads
  unfoldable pub call : {A : Type 0} → RpcRequest → (List ℕ → Option A) → M S A
  call req unmarshal = do
    body ← or_raise marshal_failed (json.marshal req)
    sent ← post body
    reply ← or_raise request_failed sent
    raise_if (not (nat_eqb reply.0 200)) bad_status
    response ← or_raise bad_reply (json.unmarshal reply.1)
    raise_if (is_some response.error) rpc_failed
    or_raise bad_reply (unmarshal response.result)

  -- Where the call fails, the nonce 0 is taken.
  abbrev pub or_zero : Outcome S ℕ → Outcome S ℕ
  or_zero (ok nonce s) = ok nonce s
  or_zero (err e s) = ok 0 s
  or_zero panic = panic

  unfoldable pub get_nonce : Address → M S ℕ
  unfolding call hex
  get_nonce address s = or_zero (call (asking address) json.unmarshal_nonce s)

  unfoldable pub send_transaction : Transaction → M S (Unit {0})
  unfolding call tx_params
  send_transaction tx = do call (sending tx) json.unmarshal_hash; pure tt

  -- the end of both actions
  unfoldable pub sign_and_send : Tools → ℕ → Transaction → M S (Unit {0})
  unfolding get_transaction_hash send_transaction
  sign_and_send tools key tx = do
    digest ← or_panic (get_transaction_hash tools tx)
    signature ← or_raise sign_failed (tools.sign digest key)
    send_transaction (record tx { signature = signature })

  -- A call of `log.Fatal` ends the client, as an error here.
  unfoldable pub deploy_contract : Tools → Flags → Address → ℕ → Option ℤ → M S (Unit {0})
  unfolding get_nonce sign_and_send
  deploy_contract tools flags from key amount = do
    raise_if (is_empty flags.contract_file) contract_required
    bytecode ← or_raise file_failed (tools.read_file flags.contract_file)
    nonce ← get_nonce from
    sign_and_send tools key (deployment flags from amount nonce bytecode)

  unfoldable pub call_contract : Tools → Flags → Address → ℕ → Option ℤ → M S (Unit {0})
  unfolding get_nonce sign_and_send
  call_contract tools flags from key amount = do
    raise_if (is_empty flags.contract_file || is_empty flags.method) contract_required
    nonce ← get_nonce from
    sign_and_send tools key (contract_call tools flags from amount nonce)

  unfoldable pub main : Tools → Flags → M S (Unit {0})
  unfolding deploy_contract call_contract parse_amount
  main tools flags = do
    raise_if (is_empty flags.private_key) key_required
    bytes ← or_raise bad_key (tools.decode_string flags.private_key)
    key ← or_raise invalid_key (tools.to_ecdsa bytes)
    let address = tools.pubkey_to_address key
    amount ← or_raise invalid_amount (parse_amount flags.amount)
    if flags.action == "deploy"
        then deploy_contract tools flags address key (some amount)
        else if flags.action == "call"
        then call_contract tools flags address key (some amount)
        else raise unknown_action
