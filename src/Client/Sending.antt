-- ===== src/Client/Sending.antt =====
-- cmd/evm/main.go, SendTransaction and GetNonce, against the server of pkg/rpc/server.go.
use zkrollup_go.Base.{◌≡◌, ◌%◌, refl, ℕ, List, [], ◌∷◌, some, false, string_eq, ap}
use zkrollup_go.Base.Int.{ℤ}
use zkrollup_go.Base.Bytes.{be_bytes}
use zkrollup_go.Outcome.{Outcome, ok, err, panic, pure, rpc_failed, bind_ok, bind_err, bind_panic}
use zkrollup_go.State.{Transaction}
use zkrollup_go.Hashing.{calculate_transaction_hash}
use zkrollup_go.Hashing.Decimal.{parse_amount-to_string_ℤ}
use zkrollup_go.Sequencer.{Sequencer, add_transaction}
use zkrollup_go.Rpc.{
  JsonRpcRequest, Response, result, hash_result, error, failed, internal_error, write_error, hex,
  answered, admit, handle_send_transaction, handle_method, handle_rpc,
}
use zkrollup_go.Rpc.Params.{Library, passed, has_prefix, parse_transaction}
use zkrollup_go.Client.{
  Json, RpcResponse, sending, call, hex_text, tx_params, amount_text, send_transaction,
}
use zkrollup_go.Client.Service.{
  read_fields, Wire, Carries, Replies, post, call_result, call_error, call_panic,
}

-- What the client returns for what AddTransaction returned on the server.
abbrev pub accepted : Outcome Sequencer (Unit {0}) → Outcome Sequencer (Unit {0})
accepted (ok _ q) = ok tt q
accepted (err e q) = err rpc_failed q
accepted panic = panic

module _ {F : Type 0} (lib : Library F) (to_float : ℕ → F) where
  -- The server reads each field of the transaction as it was.
  abbrev pub ReadsBack : Transaction → Type 0
  ReadsBack tx =
      (lib.to_uint8 (to_float (tx.tx_type % 256)) ≡ tx.tx_type)
      × (lib.hex_to_address (hex_text (be_bytes 20 tx.from)) ≡ tx.from)
      × (lib.hex_to_address (hex_text (be_bytes 20 tx.to)) ≡ tx.to)
      × (lib.to_uint64 (to_float tx.nonce) ≡ tx.nonce)
      × (lib.to_uint64 (to_float tx.gas) ≡ tx.gas)
      × (lib.from_hex (hex_text tx.payload) ≡ tx.payload)
      × (lib.from_hex (hex_text tx.signature) ≡ tx.signature)

  -- The server reads the transaction that the client was given.
  pub parse_transaction-tx_params :
      (tx : Transaction) (value : ℤ)
      → tx.amount ≡ some value
      → ReadsBack tx
      → parse_transaction lib (read_fields to_float (tx_params tx)) ≡ passed tx
  unfolding parse_transaction tx_params amount_text has_prefix
  parse_transaction-tx_params tx value e (t, f, o, n, g, p, s) =
      rw (parse_transaction, tx_params, e, parse_amount-to_string_ℤ value, f, o, n, g, t, p, s) refl

  handled_sending :
      (tx : Transaction) (value : ℤ) (received : JsonRpcRequest) (q : Sequencer)
      → tx.amount ≡ some value
      → ReadsBack tx
      → received.method ≡ "rollup_sendTransaction"
      → lib.objects received.params ≡ some (read_fields to_float (tx_params tx) ∷ [])
      → handle_rpc lib "POST" (false, received) q ≡ answered lib received tx (add_transaction tx q)
  unfolding handle_rpc handle_method handle_send_transaction admit
  handled_sending tx value received q e back method params =
      rw
        (
          handle_rpc,
          handle_method,
          method,
          handle_send_transaction,
          params,
          parse_transaction-tx_params tx value e back,
          admit,
        )
        (ap (λ m. answered lib (record received { method = m }) tx (add_transaction tx q)) method)

  module _ (json : Json) (wire : Wire)
      (replies : (response : Response)
        → (reply : RpcResponse) × (json.unmarshal (wire.encode response) ≡ some reply)
          × Replies json response reply) where
    answered_lem :
        (tx : Transaction) (body : List ℕ) (received : JsonRpcRequest) (q : Sequencer)
        (r : Outcome Sequencer (Unit {0}))
        → Carries lib to_float json wire (sending tx) body received
        → handle_rpc lib "POST" (false, received) q ≡ answered lib received tx r
        → send_transaction json (post lib wire) tx q ≡ accepted r
    unfolding answered write_error send_transaction
    answered_lem tx body received q (ok _ q') carries same =
        let digits = b'0' ∷ b'x' ∷ hex (calculate_transaction_hash lib.keccak tx) in
        let (reply, read, r) = replies (result received.id (hash_result digits)) in
        bind_ok q (call json (post lib wire) (sending tx) json.unmarshal_hash) (λ _. pure tt) digits
          q'
          (call_result lib to_float json wire (sending tx) body received q carries
            json.unmarshal_hash received.id (hash_result digits) digits reply q' same read r.0 r.1)
    answered_lem tx body received q (err e q') carries same =
        let (reply, read, has_error) = replies (error received.id internal_error (failed e)) in
        bind_err q (call json (post lib wire) (sending tx) json.unmarshal_hash) (λ _. pure tt)
          rpc_failed q'
          (call_error lib to_float json wire (sending tx) body received q carries
            json.unmarshal_hash received.id internal_error (failed e) reply q' same read has_error)
    answered_lem tx body received q panic carries same =
        bind_panic q (call json (post lib wire) (sending tx) json.unmarshal_hash) (λ _. pure tt)
          (call_panic lib to_float json wire (sending tx) body received q carries
            json.unmarshal_hash same)

    -- A client that sends a transaction with an amount to the server of a node adds that very
    -- transaction there: it succeeds exactly where AddTransaction does, and leaves the node as
    -- AddTransaction leaves it. The server reads each field of the transaction as it was, and JSON
    -- carries the request and the responses.
    pub send_transaction-add_transaction :
        (tx : Transaction) (value : ℤ) (body : List ℕ) (received : JsonRpcRequest) (q : Sequencer)
        → tx.amount ≡ some value
        → ReadsBack tx
        → Carries lib to_float json wire (sending tx) body received
        → send_transaction json (post lib wire) tx q ≡ accepted (add_transaction tx q)
    send_transaction-add_transaction tx value body received q e back carries =
        answered_lem tx body received q (add_transaction tx q) carries
          (handled_sending tx value received q e back carries.2 carries.3)
