-- ===== src/Rpc/Sending.antt =====
-- pkg/rpc/server.go, handleSendTransaction: which transactions a client gets into the pool.
use zkrollup_go.Base.{
  ◌≡◌, ◌≢◌, refl, Option-cases, arith, ◌⊎◌, inl, inr, List, [], ◌∷◌, ◌++◌, none, some, String,
}
use zkrollup_go.Base.Int.{ℤ}
use zkrollup_go.Outcome.{Error, Outcome, ok, err, panic}
use zkrollup_go.State.{Transaction}
use zkrollup_go.State.Accounts.{IsWellFormed}
use zkrollup_go.Hashing.{calculate_transaction_hash}
use zkrollup_go.Sequencer.{Sequencer, add_transaction}
use zkrollup_go.Sequencer.Validation.{Validates, Admits, add_transaction-Admits}
use zkrollup_go.Rpc.Params.Form.{IsForm, IsForm-passed, form_refused}
use zkrollup_go.Rpc.Params.{Fields, Library, Check, refused, passed, parse_transaction}
use zkrollup_go.Rpc.{
  JsonRpcRequest, Response, result, error, hash_result, fixed, failed, bad_params, internal_error,
  answered, admit, handle_send_transaction, hex, write_error,
}

abbrev OnPassed : {A : Type 0} → (A → Type 0) → Check A → Type 0
OnPassed P (refused message) = Unit
OnPassed P (passed a) = P a

abbrev HasAmount : Transaction → Type 0
HasAmount tx = tx.amount ≢ none

module _ {F : Type 0} (lib : Library F) where
  parse_transaction-HasAmount :
      (fields : Fields F) → OnPassed HasAmount (parse_transaction lib fields)
  unfolding parse_transaction
  parse_transaction-HasAmount fields = ground arith

  module _ (req : JsonRpcRequest) (q : Sequencer) where
    -- What has become of a transaction: it is at the end of the pool, and its hash is the answer; or
    -- AddTransaction has returned an error, which is the answer.
    abbrev pub IsSent : Transaction → Response → Sequencer → Type 0
    IsSent tx response q' =
        (value : ℤ) × (tx.amount ≡ some value)
        × ((response
                ≡ result req.id
                    (hash_result (b'0' ∷ b'x' ∷ hex (calculate_transaction_hash lib.keccak tx))))
              × (q' ≡ record q { state = q'.state; tx_pool = q.tx_pool ++ tx ∷ [] })
              × Validates tx value q.state (ok tt q'.state)
            ⊎ ((e : Error) × (response ≡ error req.id internal_error (failed e))
                × (q' ≡ record q { state = q'.state })
                × Validates tx value q.state (err e q'.state)))

    -- What has become of the parameters: they are of no form, the answer says so, and nothing has
    -- changed; or they spell a transaction, and that has become of it.
    abbrev pub Sends : Fields F → Response → Sequencer → Type 0
    Sends fields response q' =
        ((message : String) × (response ≡ error req.id bad_params (fixed message))
          × (parse_transaction lib fields ≡ refused message)
          × ((tx : Transaction) → IsForm lib fields tx → ⊥)
          × (q' ≡ q))
        ⊎ ((tx : Transaction) × IsForm lib fields tx × IsSent tx response q')

    abbrev OnCheck : Check Transaction → Response → Sequencer → Type 0
    OnCheck (refused message) response q' =
        (response ≡ error req.id bad_params (fixed message)) × (q' ≡ q)
    OnCheck (passed tx) response q' = IsSent tx response q'

    OnCheck-Sends :
        (fields : Fields F) (c : Check Transaction) (response : Response) (q' : Sequencer)
        → parse_transaction lib fields ≡ c
        → OnCheck c response q'
        → Sends fields response q'
    OnCheck-Sends fields (refused message) response q' e h =
        inl (message, h.0, e, (λ tx f. form_refused lib fields message tx e f), h.1)
    OnCheck-Sends fields (passed tx) response q' e h = inr (tx, IsForm-passed lib fields tx e, h)

    answered-IsSent :
        (tx : Transaction) (value : ℤ) (r : Outcome Sequencer (Unit {0}))
        → tx.amount ≡ some value
        → Admits tx value q r
        → (response : Response) × (q' : Sequencer) × (answered lib req tx r ≡ ok response q')
          × IsSent tx response q'
    unfolding write_error answered
    answered-IsSent tx value (ok _ q') e h = (_, q', refl, (value, e, inl (refl, h.0, h.1)))
    answered-IsSent tx value (err x q') e h = (_, q', refl, (value, e, inr (x, refl, h.0, h.1)))
    answered-IsSent tx value panic e h = absurd h

    admit-OnCheck :
        IsWellFormed q.state
        → (c : Check Transaction) → OnPassed HasAmount c
        → (response : Response) × (q' : Sequencer) × (admit lib req c q ≡ ok response q')
          × OnCheck c response q'
    unfolding write_error admit
    admit-OnCheck w (refused message) h = (_, q, refl, (refl, refl))
    admit-OnCheck w (passed tx) h = elim (Option-cases tx.amount) [
      | inl nil ↦ absurd (h nil)
      | inr (value, e) ↦
          answered-IsSent tx value (add_transaction tx q) e (add_transaction-Admits q tx value w e)
    ]

    -- On a request with parameters, the handler always answers. Parameters without the texts and
    -- numbers of a transaction, with a sender without "0x" or an amount that is no decimal number are
    -- refused, and nothing changes; on the transaction that other parameters spell, AddTransaction
    -- decides, and it is in the pool exactly where the answer is its hash.
    pub handle_send_transaction-Sends :
        (fields : Fields F) (more : List (Fields F))
        → lib.objects req.params ≡ some (fields ∷ more)
        → IsWellFormed q.state
        → (response : Response) × (q' : Sequencer) × (handle_send_transaction lib req q
            ≡ ok response q')
          × Sends fields response q'
    unfolding handle_send_transaction
    handle_send_transaction-Sends fields more e w =
        let c = parse_transaction lib fields in
        let (response, q', run, sent) = admit-OnCheck w c (parse_transaction-HasAmount fields) in
        (
          response,
          q',
          rw (handle_send_transaction, e) run,
          OnCheck-Sends fields c response q' refl sent,
        )
