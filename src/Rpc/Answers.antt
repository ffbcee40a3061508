-- ===== src/Rpc/Answers.antt =====
-- pkg/rpc/server.go, handleRPC: every request is answered.
use zkrollup_go.Base.{
  ◌≡◌, ◌≢◌, refl, inl, inr, List, ◌∷◌, ℕ, Bool, true, false, string_eq, ◌==◌, Bool-cases,
  Option-cases, List-cases,
}
use zkrollup_go.Outcome.{Outcome, ok, err, panic}
use zkrollup_go.Outcome.Frame.{Leaves}
use zkrollup_go.State.{Transaction}
use zkrollup_go.Sequencer.{Sequencer, add_transaction}
use zkrollup_go.Sequencer.Api.{query_account, query_code}
use zkrollup_go.Sequencer.Invariant.{IsSound, add_transaction-Keeps}
use zkrollup_go.Rpc.Params.{Fields, Library, Check, refused, passed, has_prefix, parse_transaction}
use zkrollup_go.Rpc.{
  JsonRpcRequest, Response, http_error, result, error, answered, admit, with_address,
  handle_get_nonce, handle_get_balance, handle_get_code, handle_send_transaction, handle_method,
  handle_rpc, write_error, nonce_result, balance_result, code_result, shown, hex,
}
use zkrollup_go.Rpc.Sending.{handle_send_transaction-Sends, Sends}

-- The response is for the request with the id.
abbrev pub IsFor : List ℕ → Response → Type 0
IsFor id (http_error status) = ⊥
IsFor id (result other r) = other ≡ id
IsFor id (error other error_code message) = other ≡ id

-- A response has been written, and the sequencer is sound.
abbrev pub Answered : (Response → Type 0) → Sequencer → Outcome Sequencer Response → Type 0
Answered P q (ok response q') = P response × IsSound q'
Answered P q _ = ⊥

module _ {F : Type 0} (lib : Library F) (req : JsonRpcRequest) where
  with_address-IsFor :
      (answer : ℕ → Response)
      → ((address : ℕ) → IsFor req.id (answer address))
      → IsFor req.id (with_address lib req answer)
  unfolding with_address write_error
  with_address-IsFor answer h = elim (Option-cases (lib.strings req.params)) [
    | inl bad ↦ rw (with_address, bad) refl
    | inr (addrs, e) ↦ elim (List-cases addrs) [
      | inl empty ↦ rw (with_address, e, empty) refl
      | inr (addr, more, f) ↦ elim (Bool-cases (has_prefix addr)) [
        | inl prefixed ↦ rw (with_address, e, f, prefixed) (h (lib.hex_to_address addr))
        | inr bare ↦ rw (with_address, e, f, bare) refl
      ]
    ]
  ]

  answered_kept :
      (tx : Transaction) (r : Outcome Sequencer (Unit {0}))
      → Leaves IsSound r
      → Leaves IsSound (answered lib req tx r)
  unfolding answered write_error
  answered_kept tx (ok _ q) h = h
  answered_kept tx (err e q) h = h
  answered_kept tx panic h = h

  admit_kept :
      (c : Check Transaction) (q : Sequencer) → IsSound q → Leaves IsSound (admit lib req c q)
  unfolding admit
  admit_kept (refused message) q sound = sound
  admit_kept (passed tx) q sound =
      answered_kept tx (add_transaction tx q) ((add_transaction-Keeps tx).run q sound)

  Sends-IsFor :
      (q q' : Sequencer) (fields : Fields F) (response : Response)
      → Sends lib req q fields response q'
      → IsFor req.id response
  Sends-IsFor q q' fields response (inl (message, h, _, _, _)) = rw (h) refl
  Sends-IsFor q q' fields response (inr (tx, form, (value, e, inl h))) = rw (h.0) refl
  Sends-IsFor q q' fields response (inr (tx, form, (value, e, inr (x, h, _, _)))) = rw (h) refl

  sending_kept : (q : Sequencer) → IsSound q → Leaves IsSound (handle_send_transaction lib req q)
  unfolding handle_send_transaction
  sending_kept q sound = elim (Option-cases (lib.objects req.params)) [
    | inl bad ↦ rw (handle_send_transaction, bad) sound
    | inr (objects, e) ↦ elim (List-cases objects) [
      | inl empty ↦ rw (handle_send_transaction, e, empty) sound
      | inr (fields, more, f) ↦
          rw (handle_send_transaction, e, f) (admit_kept (parse_transaction lib fields) q sound)
    ]
  ]

  sending-Answered :
      (q : Sequencer) → IsSound q → Answered (IsFor req.id) q (handle_send_transaction lib req q)
  unfolding handle_send_transaction write_error
  sending-Answered q sound = elim (Option-cases (lib.objects req.params)) [
    | inl bad ↦ rw (handle_send_transaction, bad) (refl, sound)
    | inr (objects, e) ↦ elim (List-cases objects) [
      | inl empty ↦ rw (handle_send_transaction, e, empty) (refl, sound)
      | inr (fields, more, f) ↦
          let (response, q', same, sends) =
            handle_send_transaction-Sends lib req q fields more (rw (f) at e) sound.0 in
          rw (same) (Sends-IsFor q q' fields response sends, rw (same) at (sending_kept q sound))
    ]
  ]

  handle_get_nonce-IsFor : (q : Sequencer) → IsFor req.id (handle_get_nonce lib req q)
  unfolding handle_get_nonce
  handle_get_nonce-IsFor q =
      with_address-IsFor (λ address. result req.id (nonce_result (query_account address q).nonce))
        (λ address. refl)

  handle_get_balance-IsFor : (q : Sequencer) → IsFor req.id (handle_get_balance lib req q)
  unfolding handle_get_balance
  handle_get_balance-IsFor q =
      with_address-IsFor
        (λ address. result req.id (balance_result (shown (query_account address q).balance)))
        (λ address. refl)

  handle_get_code-IsFor : (q : Sequencer) → IsFor req.id (handle_get_code lib req q)
  unfolding handle_get_code
  handle_get_code-IsFor q =
      with_address-IsFor
        (λ address. result req.id (code_result (b'0' ∷ b'x' ∷ hex (query_code address q))))
        (λ address. refl)

  -- The answer to a request of a method other than sending is a function of the state alone.
  abbrev pub Reads : Sequencer → Outcome Sequencer Response → Type 0
  Reads q (ok response q') = q' ≡ q
  Reads q _ = ⊥

  handle_method_lem :
      (q : Sequencer)
      → IsSound q
      → Answered (IsFor req.id) q (handle_method lib req q)
        × (req.method ≢ "rollup_sendTransaction" → Reads q (handle_method lib req q))
  unfolding handle_method write_error
  handle_method_lem q sound = elim (Bool-cases (req.method == "rollup_getNonce")) [
    | inl nonce ↦ rw (handle_method, nonce) ((handle_get_nonce-IsFor q, sound), λ h. refl)
    | inr a ↦ elim (Bool-cases (req.method == "rollup_sendTransaction")) [
      | inl send ↦
          rw (handle_method, a, send)
            (
              sending-Answered q sound,
              λ h. absurd (h ((string_eq.eqb_iff req.method "rollup_sendTransaction").0 send)),
            )
      | inr b ↦ elim (Bool-cases (req.method == "rollup_getBalance")) [
        | inl balance ↦
            rw (handle_method, a, b, balance) ((handle_get_balance-IsFor q, sound), λ h. refl)
        | inr c ↦ elim (Bool-cases (req.method == "rollup_getCode")) [
          | inl code ↦
              rw (handle_method, a, b, c, code) ((handle_get_code-IsFor q, sound), λ h. refl)
          | inr d ↦ rw (handle_method, a, b, c, d) ((refl, sound), λ h. refl)
        ]
      ]
    ]
  ]

  -- Every POST request to a sound sequencer is answered, without a panic, by one response with the
  -- request's id, and leaves it sound; only rollup_sendTransaction changes anything at all.
  pub handle_rpc_answers :
      (q : Sequencer) (broken : Bool)
      → IsSound q
      → Answered (IsFor req.id) q (handle_rpc lib "POST" (broken, req) q)
        × (req.method ≢ "rollup_sendTransaction" → Reads q (handle_rpc lib "POST" (broken, req) q))
  unfolding handle_rpc write_error
  handle_rpc_answers q true sound = ((refl, sound), λ h. refl)
  handle_rpc_answers q false sound = handle_method_lem q sound
