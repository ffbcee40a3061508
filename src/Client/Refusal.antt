-- ===== src/Client/Refusal.antt =====
-- cmd/evm/main.go, deployContract and callContract, against the server of pkg/rpc/server.go: what
-- becomes of a transaction with the nonce that GetNonce reads.
use zkrollup_go.Base.{
  ◌≡◌, ◌≢◌, ◌≤◌, refl, inl, inr, ℕ, List, [], ◌++◌, some, false, arith, Option-cases, string_eq, ap,
  Bool-cases, ◌||◌,
}
use zkrollup_go.Base.Int.{ℤ}
use zkrollup_go.Base.Bytes.{be_bytes}
use zkrollup_go.Outcome.{Error, Outcome, ok, err, panic, ◌>>=◌}
use zkrollup_go.State.{Address, Transaction}
use zkrollup_go.State.Accounts.{IsWellFormed, account_at}
use zkrollup_go.State.Supply.{nonce_at}
use zkrollup_go.Sequencer.{Sequencer, add_transaction}
use zkrollup_go.Sequencer.Validation.{Admits, add_transaction-Admits}
use zkrollup_go.Hashing.{decimal}
use zkrollup_go.Rpc.{
  JsonRpcRequest, Response, result, nonce_result, handle_rpc, handle_method, handle_get_nonce,
}
use zkrollup_go.Rpc.Params.{Library, has_prefix}
use zkrollup_go.Rpc.Queries.{queries_report}
use zkrollup_go.Client.{
  Json, RpcResponse, Tools, Flags, is_empty, hex_text, asking, sending, get_nonce,
  get_transaction_hash, amount_bytes, sign_and_send, deploy_contract, call_contract, deployment,
  contract_call, send_transaction,
}
use zkrollup_go.Client.Service.{Wire, Carries, Replies, post, call_result}
use zkrollup_go.Client.Sending.{ReadsBack, send_transaction-add_transaction}

-- The client fails and leaves the pool of the node as it was.
abbrev pub IsRefused : Sequencer → Outcome Sequencer (Unit {0}) → Type 0
IsRefused q (ok _ q') = ⊥
IsRefused q (err e q') = q'.tx_pool ≡ q.tx_pool
IsRefused q panic = ⊥

low_nonce :
    (tx : Transaction) (value : ℤ) (q : Sequencer) (r : Outcome Sequencer (Unit {0}))
    → tx.nonce ≤ nonce_at (account_at q.state tx.from)
    → Admits tx value q r
    → (e : Error) × (q' : Sequencer) × (r ≡ err e q') × (q'.tx_pool ≡ q.tx_pool)
low_nonce tx value q (ok _ q') low admits = absurd (omega (arith, low, admits.1.1))
low_nonce tx value q (err e q') low admits = (e, q', refl, ap (λ p. p.tx_pool) admits.0)
low_nonce tx value q panic low admits = absurd admits

hash_known :
    (tools : Tools) (tx : Transaction) (value : ℤ)
    → tx.amount ≡ some value
    → (digest : List ℕ) × (get_transaction_hash tools tx ≡ some digest)
unfolding get_transaction_hash amount_bytes decimal
hash_known tools tx value amount = (
  tools.keccak (
      be_bytes 20 tx.from
      ++ (be_bytes 20 tx.to ++ (amount_bytes value ++ (decimal tx.nonce ++ tx.payload)))),
  rw (get_transaction_hash, amount) refl,
)

module _ {F : Type 0} (lib : Library F) (to_float : ℕ → F) (json : Json) (wire : Wire)
    (replies : (response : Response)
      → (reply : RpcResponse) × (json.unmarshal (wire.encode response) ≡ some reply)
        × Replies json response reply) where
  get_nonce_lem :
      (address : Address) (body : List ℕ) (received : JsonRpcRequest) (q : Sequencer)
      → address ≢ 0
      → lib.hex_to_address (hex_text (be_bytes 20 address)) ≡ address
      → Carries lib to_float json wire (asking address) body received
      → get_nonce json (post lib wire) address q ≡ ok (nonce_at (account_at q.state address)) q
  unfolding get_nonce handle_rpc handle_method has_prefix
  get_nonce_lem address body received q other back carries =
      let nonce = nonce_at (account_at q.state address) in
      let answer : handle_get_nonce lib received q ≡ result received.id (nonce_result nonce) =
        rw (back) at
          (queries_report lib received q (hex_text (be_bytes 20 address)) [] carries.3 refl
            (rw (back) other)).0 in
      let handled : handle_rpc lib "POST" (false, received) q
          ≡ ok (result received.id (nonce_result nonce)) q =
        rw (handle_rpc, handle_method, carries.2, answer) refl in
      let (reply, read, r) = replies (result received.id (nonce_result nonce)) in
      rw
        (
          get_nonce,
          call_result lib to_float json wire (asking address) body received q carries
              json.unmarshal_nonce received.id (nonce_result nonce) nonce reply q handled read r.0
              r.1,
        )
        refl

  -- Once it is signed, the transaction is carried to the server, which reads it as it was.
  abbrev pub Delivers : Tools → ℕ → Transaction → Type 0
  Delivers tools key tx =
      (digest signature : List ℕ)
      → get_transaction_hash tools tx ≡ some digest
      → tools.sign digest key ≡ some signature
      → let signed : Transaction = record tx { signature = signature } in
        (body : List ℕ) × (received : JsonRpcRequest) × ReadsBack lib to_float signed
        × Carries lib to_float json wire (sending signed) body received

  sent-IsRefused :
      (tx : Transaction) (value : ℤ) (body : List ℕ) (received : JsonRpcRequest) (q : Sequencer)
      → IsWellFormed q.state
      → tx.amount ≡ some value
      → tx.nonce ≤ nonce_at (account_at q.state tx.from)
      → ReadsBack lib to_float tx
      → Carries lib to_float json wire (sending tx) body received
      → IsRefused q (send_transaction json (post lib wire) tx q)
  sent-IsRefused tx value body received q w amount low back carries =
      let (e, q', refused, kept) =
        low_nonce tx value q (add_transaction tx q) low
          (add_transaction-Admits q tx value w amount) in
      rw
        (
          send_transaction-add_transaction lib to_float json wire replies tx value body received q
              amount back carries,
          refused,
        )
        kept

  signed-IsRefused :
      (tools : Tools) (key : ℕ) (tx : Transaction) (value : ℤ) (q : Sequencer)
      → IsWellFormed q.state
      → tx.amount ≡ some value
      → tx.nonce ≤ nonce_at (account_at q.state tx.from)
      → Delivers tools key tx
      → IsRefused q (sign_and_send json (post lib wire) tools key tx q)
  unfolding sign_and_send get_transaction_hash
  signed-IsRefused tools key tx value q w amount low carry =
      let (digest, hashed) = hash_known tools tx value amount in
      elim (Option-cases (tools.sign digest key)) [
        | inl unsigned ↦ rw (sign_and_send, hashed, ◌>>=◌, unsigned) refl
        | inr (signature, signed) ↦
            let (body, received, back, carries) = carry digest signature hashed signed in
            rw (sign_and_send, hashed, ◌>>=◌, signed)
              (sent-IsRefused (record tx { signature = signature }) value body received q w amount
                low back carries)
      ]

  module _ (tools : Tools) (flags : Flags) (from : Address) (key : ℕ) (amount : ℤ) (body : List ℕ)
      (received : JsonRpcRequest) (q : Sequencer) (w : IsWellFormed q.state) (other : from ≢ 0)
      (back : lib.hex_to_address (hex_text (be_bytes 20 from)) ≡ from)
      (asks : Carries lib to_float json wire (asking from) body received) where
    -- Against the server of a node, a deployment by any account other than zero, with whatever
    -- file, amount and signature, ends in an error and adds nothing to the pool: the client takes
    -- the nonce that the server reports, and AddTransaction asks for a higher one. JSON carries the
    -- request for the nonce, the transaction and the responses.
    pub deploy_contract-IsRefused :
        ((bytecode : List ℕ)
          → tools.read_file flags.contract_file ≡ some bytecode
          → Delivers tools key
              (deployment flags from (some amount) (nonce_at (account_at q.state from)) bytecode))
        → IsRefused q (deploy_contract json (post lib wire) tools flags from key (some amount) q)
    unfolding deploy_contract
    deploy_contract-IsRefused delivers = elim (Bool-cases (is_empty flags.contract_file)) [
      | inl empty ↦ rw (deploy_contract, empty) refl
      | inr given ↦ elim (Option-cases (tools.read_file flags.contract_file)) [
        | inl unread ↦ rw (deploy_contract, given, ◌>>=◌, unread) refl
        | inr (bytecode, found) ↦
            rw
              (
                deploy_contract,
                given,
                ◌>>=◌,
                found,
                get_nonce_lem from body received q other back asks,
              )
              (signed-IsRefused tools key
                (deployment flags from (some amount) (nonce_at (account_at q.state from)) bytecode)
                amount q w refl (omega arith) (delivers bytecode found))
      ]
    ]

    -- The same holds of a call of a contract.
    pub call_contract-IsRefused :
        Delivers tools key
          (contract_call tools flags from (some amount) (nonce_at (account_at q.state from)))
        → IsRefused q (call_contract json (post lib wire) tools flags from key (some amount) q)
    unfolding call_contract
    call_contract-IsRefused delivers =
        elim (Bool-cases (is_empty flags.contract_file || is_empty flags.method)) [
          | inl empty ↦ rw (call_contract, empty) refl
          | inr given ↦
              rw (call_contract, given, ◌>>=◌, get_nonce_lem from body received q other back asks)
                (signed-IsRefused tools key
                  (contract_call tools flags from (some amount)
                    (nonce_at (account_at q.state from)))
                  amount q w refl (omega arith) delivers)
        ]
