-- ===== src/Client/Actions.antt =====
-- cmd/evm/main.go, main, against the server of pkg/rpc/server.go.
use zkrollup_go.Base.{
  ◌≡◌, ◌≢◌, refl, inl, inr, ℕ, List, some, Option-cases, Bool-cases, string_eq, ◌==◌, if◌then◌else◌,
}
use zkrollup_go.Base.Int.{ℤ}
use zkrollup_go.Base.Bytes.{be_bytes}
use zkrollup_go.Outcome.{raise, unknown_action, ◌>>=◌}
use zkrollup_go.State.Accounts.{IsWellFormed, account_at}
use zkrollup_go.State.Supply.{nonce_at}
use zkrollup_go.Sequencer.{Sequencer}
use zkrollup_go.Hashing.{parse_amount}
use zkrollup_go.Rpc.{JsonRpcRequest, Response}
use zkrollup_go.Rpc.Params.{Library}
use zkrollup_go.Client.{
  Json, RpcResponse, Tools, Flags, is_empty, hex_text, asking, deployment, contract_call, main,
  deploy_contract, call_contract,
}
use zkrollup_go.Client.Service.{Wire, Carries, Replies, post}
use zkrollup_go.Client.Refusal.{
  IsRefused, Delivers, deploy_contract-IsRefused, call_contract-IsRefused,
}

module _ {F : Type 0} (lib : Library F) (to_float : ℕ → F) (json : Json) (wire : Wire)
    (replies : (response : Response)
      → (reply : RpcResponse) × (json.unmarshal (wire.encode response) ≡ some reply)
        × Replies json response reply) where
  -- What the client asks and sends for its key and its amount comes to the server as it was.
  pub record IsServed (tools : Tools) (flags : Flags) (q : Sequencer) (key : ℕ) (amount : ℤ)
      : Type 0 where
    pub other : tools.pubkey_to_address key ≢ 0
    pub reads_back :
        lib.hex_to_address (hex_text (be_bytes 20 (tools.pubkey_to_address key)))
        ≡ tools.pubkey_to_address key
    pub body : List ℕ
    pub received : JsonRpcRequest
    pub asks : Carries lib to_float json wire (asking (tools.pubkey_to_address key)) body received
    pub deploys :
        flags.action ≡ "deploy"
        → (bytecode : List ℕ) → tools.read_file flags.contract_file ≡ some bytecode
        → Delivers lib to_float json wire replies tools key (
            deployment flags
              (tools.pubkey_to_address key)
              (some amount)
              (nonce_at (account_at q.state (tools.pubkey_to_address key)))
              bytecode)
    pub calls :
        flags.action ≡ "call"
        → Delivers lib to_float json wire replies tools key (
            contract_call tools flags
              (tools.pubkey_to_address key)
              (some amount)
              (nonce_at (account_at q.state (tools.pubkey_to_address key))))

  action-IsRefused :
      (tools : Tools) (flags : Flags) (q : Sequencer) (key : ℕ) (amount : ℤ)
      → IsWellFormed q.state
      → IsServed tools flags q key amount
      → let address = tools.pubkey_to_address key in
        IsRefused q (
          (if flags.action == "deploy"
              then deploy_contract json (post lib wire) tools flags address key (some amount)
              else if flags.action == "call"
              then call_contract json (post lib wire) tools flags address key (some amount)
              else raise unknown_action)
            q)
  action-IsRefused tools flags q key amount w h =
      let address = tools.pubkey_to_address key in
      elim (Bool-cases (flags.action == "deploy")) [
        | inl is_deploy ↦ rw (is_deploy) (
            deploy_contract-IsRefused lib to_float json wire replies tools flags address key amount
              h.body h.received q w h.other h.reads_back h.asks
              (h.deploys ((string_eq.eqb_iff flags.action "deploy").0 is_deploy)))
        | inr no_deploy ↦ elim (Bool-cases (flags.action == "call")) [
          | inl is_call ↦
              rw (no_deploy, is_call)
                (call_contract-IsRefused lib to_float json wire replies tools flags address key
                  amount h.body h.received q w h.other h.reads_back h.asks
                  (h.calls ((string_eq.eqb_iff flags.action "call").0 is_call)))
          | inr no_call ↦ rw (no_deploy, no_call) refl
        ]
      ]

  -- Against the server of a node, the client ends in an error and adds nothing to the pool, whatever
  -- its flags, its key, its files and its signatures are: the client takes the nonce that the server
  -- reports, and AddTransaction asks for a higher one. The address of the key is not zero, and what
  -- the client asks and sends comes to the server as it was, and so do the responses.
  pub main-IsRefused :
      (tools : Tools) (flags : Flags) (q : Sequencer)
      → IsWellFormed q.state
      → ((bytes : List ℕ) (key : ℕ) (amount : ℤ)
          → tools.decode_string flags.private_key ≡ some bytes
          → tools.to_ecdsa bytes ≡ some key
          → parse_amount flags.amount ≡ some amount
          → IsServed tools flags q key amount)
      → IsRefused q (main json (post lib wire) tools flags q)
  unfolding main
  main-IsRefused tools flags q w serves = elim (Bool-cases (is_empty flags.private_key)) [
    | inl empty ↦ rw (main, empty) refl
    | inr given ↦ elim (Option-cases (tools.decode_string flags.private_key)) [
      | inl unread ↦ rw (main, given, ◌>>=◌, unread) refl
      | inr (bytes, read) ↦ elim (Option-cases (tools.to_ecdsa bytes)) [
        | inl invalid ↦ rw (main, given, ◌>>=◌, read, invalid) refl
        | inr (key, valid) ↦ elim (Option-cases (parse_amount flags.amount)) [
          | inl unparsed ↦ rw (main, given, ◌>>=◌, read, valid, unparsed) refl
          | inr (amount, parsed) ↦
              rw (main, given, ◌>>=◌, read, valid, parsed)
                (action-IsRefused tools flags q key amount w
                  (serves bytes key amount read valid parsed))
        ]
      ]
    ]
  ]
