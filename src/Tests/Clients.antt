-- ===== src/Tests/Clients.antt =====
-- The theorems about the command-line client at concrete inputs.
use zkrollup_go.Base.{
  ◌≡◌, refl, ℕ, zero, suc, ◌+◌, ◌-◌, ◌*◌, ◌^◌, ◌%◌, List, [], ◌∷◌, Option, none, some, true, false,
  ltb, if◌then◌else◌, drop, arith, string_eq,
}
use mathlib.Core.Option.{some-injective}
use zkrollup_go.Base.Int.{ℤ, pos, negsuc}
use zkrollup_go.Base.Bytes.{be_bytes, of_bytes}
use zkrollup_go.State.{Transaction}
use zkrollup_go.State.Accounts.{account_at, create_account}
use zkrollup_go.Sequencer.{add_transaction}
use zkrollup_go.Hashing.{decimal, parse_amount, parse_digits, of_digits}
use zkrollup_go.Rpc.{
  JsonRpcRequest, Response, Result, nonce_result, balance_result, code_result, hash_result,
  http_error, result, error, hex,
}
use zkrollup_go.Rpc.Params.{Library}
use zkrollup_go.Client.{
  texts, objects, RpcResponse, Json, Tools, Flags, hex_text, tx_params, send_transaction, main,
  deployment, amount_text,
}
use zkrollup_go.Client.Service.{Wire, Replies, post}
use zkrollup_go.Client.Sending.{accepted, send_transaction-add_transaction}
use zkrollup_go.Client.Refusal.{IsRefused, Delivers}
use zkrollup_go.Client.Actions.{IsServed, main-IsRefused}
use zkrollup_go.Tests.Intake.{leader}
use zkrollup_go.Tests.{book-IsWellFormed, payment}

abbrev digit : ℕ → ℕ
digit c = if ltb c 58 then c - 48 else c - 87

abbrev pairs : List ℕ → List ℕ
pairs (a ∷ (b ∷ rest)) = (digit a * 16 + digit b) ∷ pairs rest
pairs _ = []

-- the hexadecimal digits after the prefix
abbrev from_hex : List ℕ → List ℕ
from_hex digits = pairs (drop 2 digits)

-- the bytes of a response: its kind, and what the client reads
abbrev encode_result : Result → List ℕ
encode_result (nonce_result nonce) = nonce ∷ []
encode_result (balance_result digits) = digits
encode_result (code_result digits) = digits
encode_result (hash_result digits) = digits

abbrev encode : Response → List ℕ
encode (http_error code) = 0 ∷ []
encode (result id r) = 0 ∷ encode_result r
encode (error id code message) = 1 ∷ []

abbrev unmarshal : List ℕ → Option RpcResponse
unmarshal (zero ∷ rest) = some (record { result = rest; error = none; id = pos 1 })
unmarshal _ = some (record { result = []; error = some (negsuc 0, []); id = pos 1 })

abbrev json : Json
json = record {
  marshal = λ req. some (elim req.params [ texts _ ↦ 0 ∷ [] | objects _ ↦ 1 ∷ [] ]);
  unmarshal = unmarshal;
  unmarshal_nonce = λ bytes. elim bytes [ [] ↦ none | nonce ∷ _ ↦ some nonce ];
  unmarshal_hash = λ bytes. some bytes;
}

replies :
    (response : Response)
    → (reply : RpcResponse) × (unmarshal (encode response) ≡ some reply)
      × Replies json response reply
replies (http_error code) = (_, refl, tt)
replies (result id (nonce_result nonce)) = (_, refl, (refl, refl))
replies (result id (balance_result digits)) = (_, refl, (refl, tt))
replies (result id (code_result digits)) = (_, refl, (refl, tt))
replies (result id (hash_result digits)) = (_, refl, (refl, refl))
replies (error id code message) = (_, refl, refl)

abbrev question : JsonRpcRequest
question = record { method = "rollup_getNonce"; params = 0 ∷ []; id = b'1' ∷ [] }

abbrev order : JsonRpcRequest
order = record { method = "rollup_sendTransaction"; params = 1 ∷ []; id = b'1' ∷ [] }

abbrev wire : Wire
wire = record {
  decode = λ body. elim body [
    | [] ↦ (true, order)
    | b ∷ _ ↦ elim b [ zero ↦ (false, question) | suc _ ↦ (false, order) ]
  ];
  encode = encode;
}

-- A server that reads the account 1, or the transaction.
abbrev library : Transaction → Library ℕ
library tx = record {
  strings = λ params. some (hex_text (be_bytes 20 1) ∷ []);
  objects = λ params. some (tx_params tx ∷ []);
  to_uint8 = λ n. n % 256;
  to_uint64 = λ n. n % 2 ^ 64;
  hex_to_address = λ digits. of_bytes 0 (from_hex digits);
  from_hex = from_hex;
  keccak = λ bytes. bytes;
}

-- the payment with a signature of one byte
abbrev signed : Transaction
signed = record payment { signature = 7 ∷ [] }

send_transaction-add_transaction_example :
    send_transaction json (post (library signed) wire) signed leader
    ≡ accepted (add_transaction signed leader)
unfolding be_bytes of_bytes hex tx_params decimal amount_text
send_transaction-add_transaction_example =
    send_transaction-add_transaction (library signed) (λ n. n) json wire replies signed (pos 30)
      (1 ∷ []) order leader refl (refl, refl, refl, refl, refl, refl, refl) (refl, refl, refl, refl)

abbrev tools : Tools
tools = record {
  decode_string = λ text. some text;
  to_ecdsa = λ bytes. some 5;
  pubkey_to_address = λ key. 1;
  sign = λ digest key. some (key ∷ []);
  keccak = λ bytes. bytes;
  read_file = λ file. some (96 ∷ []);
  hex_to_address = λ digits. of_bytes 0 (from_hex digits);
  hex_to_bytes = λ digits. pairs digits;
  split_args = λ args. args ∷ [];
}

abbrev flags : Flags
flags = record {
  private_key = b'5' ∷ [];
  action = "deploy";
  amount = b'3' ∷ [];
  contract_file = b'c' ∷ [];
  method = [];
  args = [];
  gas = 10;
}

-- what the client deploys for the account 1, which has the nonce 4, signed by the key 5
abbrev sent : Transaction
sent = record (deployment flags 1 (some (pos 3)) 4 (96 ∷ [])) { signature = 5 ∷ [] }

delivered :
    (key : ℕ) (bytecode : List ℕ)
    → 5 ≡ key
    → some (96 ∷ []) ≡ some bytecode
    → Delivers
        (library sent)
        (λ n. n)
        json
        wire
        replies
        tools
        key
        (deployment flags 1 (some (pos 3)) 4 bytecode)
unfolding be_bytes of_bytes hex tx_params decimal amount_text
delivered key bytecode same found digest signature hashed made =
    rw⁻¹ (some-injective _ _ found, some-injective _ _ made, same)
      (1 ∷ [], order, (refl, refl, refl, refl, refl, refl, refl), (refl, refl, refl, refl))

served :
    (key : ℕ) (amount : ℤ)
    → 5 ≡ key
    → pos 3 ≡ amount
    → IsServed (library sent) (λ n. n) json wire replies tools flags leader key amount
unfolding be_bytes of_bytes hex account_at create_account
served key amount same_key same = rw⁻¹ (same) (record {
  other = λ e. omega (arith, e);
  reads_back = refl;
  body = 0 ∷ [];
  received = question;
  asks = (refl, refl, refl, refl);
  deploys = λ _ bytecode found. delivered key bytecode same_key found;
  calls = λ e. absurd (ground (arith, (string_eq.eqb_iff "deploy" "call").1 e));
})

main-IsRefused_example : IsRefused leader (main json (post (library sent) wire) tools flags leader)
unfolding parse_amount parse_digits of_digits
main-IsRefused_example =
    main-IsRefused (library sent) (λ n. n) json wire replies tools flags leader book-IsWellFormed
      (λ bytes key amount read valid parsed.
        served key amount (some-injective _ _ valid) (some-injective _ _ parsed))
