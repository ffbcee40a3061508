-- ===== src/Ledger/Batches.antt =====
-- The loop of processFinalizedBatch over the transactions of a batch.
use zkrollup_go.Base.{
  ℕ, ◌≡◌, refl, ◌∙◌, ap, ◌⊎◌, ◌≢◌, List, [], ◌∷◌, Option, none, some, false, inl, inr, Bool-cases,
  Option-cases, arith, if◌then◌else◌, nat_eqb, All,
}
use zkrollup_go.Base.Int.{ℤ, pos, ◌+ℤ◌, ◌≤ℤ◌, int_laws}
use zkrollup_go.Outcome.{Outcome, ok, err, panic}
use zkrollup_go.State.{
  Address, Pointer, Transaction, State, transfer_type, deploy_type, call_type, get_account,
}
use zkrollup_go.State.Accounts.{IsWellFormed, account_at}
use zkrollup_go.State.Supply.{supply, nonce_at}
use zkrollup_go.Ledger.{process, process_transaction, process_transactions, after_process}
use zkrollup_go.Ledger.Transfer.{Transfers, process_transfer-Transfers}
use zkrollup_go.Ledger.Deploy.{Deploys, process_contract_deployment-Deploys}
use zkrollup_go.Ledger.Call.{process_contract_call_fails}

-- The money that a transaction can destroy: the amount of a deployment.
abbrev pub burnable : Transaction → ℤ → ℤ
burnable tx value = if nat_eqb tx.tx_type deploy_type then value else pos 0

-- How a run that began at `s` ended: with an error nothing has changed; else the state is well
-- formed, and the supply is the old one, less what was burnt.
abbrev pub Settles : {A : Type 0} → ℤ → State → Outcome State A → Type 0
Settles burnt s (ok _ s') = IsWellFormed s' × (supply s' +ℤ burnt ≡ supply s)
Settles burnt s (err _ s') = s' ≡ s
Settles burnt s panic = ⊥

Settles-of_Transfers :
    {A : Type 0} (from to : Address) (value : ℤ) (s : State) (r : Outcome State A)
    → Transfers from to value s r
    → Settles (pos 0) s r
Settles-of_Transfers from to value s (ok _ s') h = (h.0, grind (int_laws, h.1))
Settles-of_Transfers from to value s (err e s') h = h.0
Settles-of_Transfers from to value s panic h = h

Settles-of_Deploys :
    {A : Type 0} (from contract : Address) (value : ℤ) (s : State) (r : Outcome State A)
    → Deploys from contract value s r
    → Settles value s r
Settles-of_Deploys from contract value s (ok _ s') h = (h.0, h.1)
Settles-of_Deploys from contract value s (err e s') h = h.0
Settles-of_Deploys from contract value s panic h = h

-- A payable transaction has an amount of zero or more.
abbrev pub IsPayable : Transaction → Type 0
IsPayable tx = elim tx.amount [ none ↦ ⊥ | some value ↦ pos 0 ≤ℤ value ]

payable_amount :
    (tx : Transaction) → IsPayable tx → (value : ℤ) × (tx.amount ≡ some value) × (pos 0 ≤ℤ value)
payable_amount tx h = go tx.amount refl
  where
    go : (o : Option ℤ) → tx.amount ≡ o → (value : ℤ) × (tx.amount ≡ some value) × (pos 0 ≤ℤ value)
    go none e = absurd (ground arith)
    go (some value) e = (value, e, ground arith)

-- A transaction that moves money by transfers only: its amount is not nil, and it deploys nothing.
abbrev pub IsConserving : Transaction → Type 0
IsConserving tx = (tx.amount ≢ none) × (nat_eqb tx.tx_type deploy_type ≡ false)

module _ (create_address : Address → ℕ → Address) where
  process-Settles :
      {s : State} (tx : Transaction) (p : Pointer) (value : ℤ)
      → IsWellFormed s
      → get_account tx.from s ≡ some p
      → tx.amount ≡ some value
      → Settles (burnable tx value) s (process create_address tx p s)
  unfolding process
  process-Settles {s} tx p value w known amount =
      elim (Bool-cases (nat_eqb tx.tx_type transfer_type)) [
        | inl e ↦
            let no_deploy : nat_eqb tx.tx_type deploy_type ≡ false = ground arith in
            rw (e, no_deploy)
              (Settles-of_Transfers tx.from tx.to value s _
                (process_transfer-Transfers tx p value w known amount))
        | inr e ↦ elim (Bool-cases (nat_eqb tx.tx_type deploy_type)) [
          | inl d ↦
              rw (e, d)
                (Settles-of_Deploys tx.from
                  (create_address tx.from (nonce_at (account_at s tx.from))) value s _
                  (process_contract_deployment-Deploys create_address tx p value w known amount))
          | inr d ↦ elim (Bool-cases (nat_eqb tx.tx_type call_type)) [
            | inl c ↦ rw (e, d, c, process_contract_call_fails tx p value w known amount) refl
            | inr c ↦ rw (e, d, c) refl
          ]
        ]
      ]

  settle_round :
      {s : State} (amount : Option ℤ) (value burnt : ℤ) (r : Outcome State Unit)
      → amount ≡ some value
      → IsWellFormed s
      → Settles burnt s r
      → (s' : State) × (after_process create_address amount r ≡ some s')
        × IsWellFormed s'
        × ((supply s' ≡ supply s) ⊎ (supply s' +ℤ burnt ≡ supply s))
  settle_round none value burnt r e w h = cc
  settle_round (some _) value burnt (ok _ s') e w h = (s', refl, h.0, inr h.1)
  settle_round (some _) value burnt (err _ s') e w h = (s', refl, rw h w, inl (ap supply h))
  settle_round (some _) value burnt panic e w h = absurd h

  -- One round of the loop, panics excluded.
  pub process_transaction_settles :
      {s : State} (tx : Transaction) (value : ℤ)
      → IsWellFormed s
      → tx.amount ≡ some value
      → (s' : State) × (process_transaction create_address tx s ≡ some s')
        × IsWellFormed s'
        × ((supply s' ≡ supply s) ⊎ (supply s' +ℤ burnable tx value ≡ supply s))
  unfolding process_transaction
  process_transaction_settles {s} tx value w amount = elim (Option-cases (get_account tx.from s)) [
    | inl missing ↦ (s, rw (missing, process_transaction), w, inl refl)
    | inr (p, known) ↦
        let (s', e, w', h) =
          settle_round tx.amount value (burnable tx value) (process create_address tx p s) amount w
            (process-Settles tx p value w known amount) in
        (s', rw (known, process_transaction) e, w', h)
  ]

  -- From a well-formed state, a batch of transactions with amounts that are not nil and not
  -- negative is processed without a panic, whatever their types, senders and balances; the state
  -- that it leaves is well formed, and the supply has not grown.
  pub process_transactions_settle :
      (txs : List Transaction) (s : State)
      → All IsPayable txs
      → IsWellFormed s
      → (s' : State) × (process_transactions create_address txs s ≡ some s')
        × IsWellFormed s'
        × (supply s' ≤ℤ supply s)
  unfolding process_transactions
  process_transactions_settle [] s h w = (s, refl, w, omega arith)
  process_transactions_settle (tx ∷ rest) s h w =
      let (value, amount, nonneg) = payable_amount tx h.0 in
      let (s', e, w', moved) = process_transaction_settles tx value w amount in
      let (s'', e', w'', less) = process_transactions_settle rest s' h.1 w' in
      (s'', rw (e, process_transactions) e', w'', grind (int_laws, moved))

  -- From a well-formed state, a batch of transactions of any types but deployments, with amounts
  -- that are not nil, is processed without a panic, and conserves the supply exactly, even where
  -- amounts are negative.
  pub process_transactions_conserve :
      (txs : List Transaction) (s : State)
      → All IsConserving txs
      → IsWellFormed s
      → (s' : State) × (process_transactions create_address txs s ≡ some s')
        × IsWellFormed s'
        × (supply s' ≡ supply s)
  unfolding process_transactions
  process_transactions_conserve [] s h w = (s, refl, w, refl)
  process_transactions_conserve (tx ∷ rest) s h w = elim (Option-cases tx.amount) [
    | inl nil ↦ absurd (h.0.0 nil)
    | inr (value, amount) ↦
        let (s', e, w', moved) = process_transaction_settles tx value w amount in
        let (s'', e', w'', same) = process_transactions_conserve rest s' h.1 w' in
        (s'', rw (e, process_transactions) e', w'', same ∙ grind (int_laws, moved, h.0.1))
  ]
