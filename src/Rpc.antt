-- ===== src/Rpc.antt =====
-- pkg/rpc/server.go: the JSON-RPC server over a sequencer. A handler is one step of the sequencer and
-- gives the response that it writes. HTTP, JSON and the hexadecimal texts of go-ethereum are parameters.
-- A text of a request is the list of its bytes.
pub mod Params
pub mod Queries
pub mod Sending
pub mod Answers
use zkrollup_go.Base.{
  ℕ, ◌+◌, ◌/◌, ◌%◌, List, [], ◌∷◌, ◌++◌, Option, none, some, String, Bool, not, ltb, nat_eqb,
  if◌then◌else◌, string_eq, ◌==◌, map,
}
use zkrollup_go.Base.Int.{ℤ, pos, negsuc}
use zkrollup_go.Outcome.{M, Error, Outcome, ok, err, panic, pure}
use zkrollup_go.State.{Address, Account, Transaction}
use zkrollup_go.Hashing.{to_string_ℤ, calculate_transaction_hash}
use zkrollup_go.Sequencer.{Sequencer, add_transaction}
use zkrollup_go.Sequencer.Api.{query_account, query_code}
use zkrollup_go.Rpc.Params.{Fields, Library, Check, refused, passed, has_prefix, parse_transaction}

-- An id is kept as it was sent, and the parameters are not parsed yet.
pub record JsonRpcRequest : Type 0 where
  pub method : String
  pub params : List ℕ
  pub id : List ℕ

pub data Result : Type 0 where
  nonce_result : ℕ → Result
  balance_result code_result hash_result : List ℕ → Result

-- A message is a fixed text, or has the text of an error of the sequencer.
pub data ErrorText : Type 0 where
  fixed : String → ErrorText
  failed : Error → ErrorText

pub data Response : Type 0 where
  http_error : ℕ → Response
  result : List ℕ → Result → Response
  error : List ℕ → ℤ → ErrorText → Response

-- The code -(n + 1).
abbrev pub parse_error : ℤ
parse_error = negsuc 32699

abbrev pub method_not_found : ℤ
method_not_found = negsuc 32600

abbrev pub bad_params : ℤ
bad_params = negsuc 32601

abbrev pub internal_error : ℤ
internal_error = negsuc 32602

-- `writeError`
unfoldable pub write_error : JsonRpcRequest → ℤ → ErrorText → Response
write_error req error_code message = error req.id error_code message

abbrev hex_digit : ℕ → ℕ
hex_digit d = if ltb d 10 then 48 + d else 87 + d

-- `fmt.Sprintf("%x", bytes)`
unfoldable pub hex : List ℕ → List ℕ
hex [] = []
hex (b ∷ bs) = hex_digit (b / 16) ∷ hex_digit (b % 16) ∷ hex bs

-- the balance that an answer shows
abbrev pub shown : Option ℤ → List ℕ
shown none = b'0' ∷ []
shown (some value) = to_string_ℤ value

module _ {F : Type 0} (lib : Library F) where
  -- The first parameter, an address, and what is answered for it.
  unfoldable pub with_address : JsonRpcRequest → (Address → Response) → Response
  unfolding write_error
  with_address req answer = elim (lib.strings req.params) [
    | none ↦ write_error req bad_params (fixed "Invalid params")
    | some [] ↦ write_error req bad_params (fixed "Invalid params")
    | some (addr ∷ _) ↦
        if not (has_prefix addr)
        then write_error req bad_params (fixed "Address must start with 0x")
        else answer (lib.hex_to_address addr)
  ]

  unfoldable pub handle_get_nonce : JsonRpcRequest → Sequencer → Response
  unfolding with_address query_account
  handle_get_nonce req q =
      with_address req (λ address. result req.id (nonce_result (query_account address q).nonce))

  unfoldable pub handle_get_balance : JsonRpcRequest → Sequencer → Response
  unfolding with_address query_account to_string_ℤ
  handle_get_balance req q =
      with_address req
        (λ address. result req.id (balance_result (shown (query_account address q).balance)))

  unfoldable pub handle_get_code : JsonRpcRequest → Sequencer → Response
  unfolding with_address query_code hex
  handle_get_code req q =
      with_address req
        (λ address. result req.id (code_result (b'0' ∷ b'x' ∷ hex (query_code address q))))

  -- what is answered once AddTransaction has returned
  unfoldable pub answered :
      JsonRpcRequest → Transaction → Outcome Sequencer (Unit {0}) → Outcome Sequencer Response
  unfolding write_error hex calculate_transaction_hash
  answered req tx (ok _ q) =
      ok
        (result req.id (hash_result (b'0' ∷ b'x' ∷ hex (calculate_transaction_hash lib.keccak tx))))
        q
  answered req tx (err e q) = ok (write_error req internal_error (failed e)) q
  answered req tx panic = panic

  unfoldable pub admit : JsonRpcRequest → Check Transaction → M Sequencer Response
  unfolding write_error add_transaction answered
  admit req (refused message) q = ok (write_error req bad_params (fixed message)) q
  admit req (passed tx) q = answered req tx (add_transaction tx q)

  unfoldable pub handle_send_transaction : JsonRpcRequest → M Sequencer Response
  unfolding write_error parse_transaction admit
  handle_send_transaction req q = elim (lib.objects req.params) [
    | none ↦ ok (write_error req bad_params (fixed "Invalid params")) q
    | some [] ↦ ok (write_error req bad_params (fixed "Invalid params")) q
    | some (tx_params ∷ _) ↦ admit req (parse_transaction lib tx_params) q
  ]

  -- the switch on the method
  unfoldable pub handle_method : JsonRpcRequest → M Sequencer Response
  unfolding handle_get_nonce handle_send_transaction handle_get_balance handle_get_code write_error
  handle_method req q =
      if req.method == "rollup_getNonce"
      then ok (handle_get_nonce req q) q
      else if req.method == "rollup_sendTransaction"
      then handle_send_transaction req q
      else if req.method == "rollup_getBalance"
      then ok (handle_get_balance req q) q
      else if req.method == "rollup_getCode"
      then ok (handle_get_code req q) q
      else ok (write_error req method_not_found (fixed "Method not found")) q

  -- `handleRPC`, of the HTTP method and of the request that the body decodes to; the Boolean says
  -- that the decoder failed, and the request then has what was read before.
  unfoldable pub handle_rpc : String → Bool × JsonRpcRequest → M Sequencer Response
  unfolding handle_method write_error
  handle_rpc http_method (broken, req) q =
      if not (http_method == "POST")
      then ok (http_error 405) q
      else if broken
      then ok (write_error req parse_error (fixed "Parse error")) q
      else handle_method req q
