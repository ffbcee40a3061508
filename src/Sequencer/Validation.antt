-- ===== src/Sequencer/Validation.antt =====
-- AddTransaction and handleTransaction: which transactions are admitted.
use zkrollup_go.Base.{
  ◌≡◌, refl, ◌⊎◌, inl, inr, ◌≤◌, ◌<◌, List, [], ◌∷◌, ◌++◌, length, ◌&&◌, some, true, false, leb,
  nat_eqb, if◌then◌else◌, Bool-cases, arith,
}
use zkrollup_go.Base.Int.{ℤ, ltb_ℤ}
use zkrollup_go.Outcome.{
  Outcome, ok, err, panic, bind_ok, invalid_nonce, insufficient_balance, gas_required,
  bytecode_required,
}
use zkrollup_go.State.{Pointer, Transaction, State, get_account, deploy_type, call_type}
use zkrollup_go.State.Accounts.{IsWellFormed, account_at, account_at_known}
use zkrollup_go.State.Supply.{nonce_at}
use zkrollup_go.Ledger.Steps.{balance_known}
use zkrollup_go.Sequencer.{
  Sequencer, on_state, fund_sender, open_recipient, check_sender, validate, needs_gas,
  handle_transaction, add_transaction,
}
use zkrollup_go.Sequencer.Admission.{
  purse, funded, opened, Funds, fund_sender_lem, open_recipient_lem, get_account-opened,
  funded-Funds, looked_up-Funds,
}

-- How AddTransaction ends: with the accounts looked up in any case, and then with the error that
-- the nonce or the balance calls for, or with the transaction admitted.
abbrev pub Validates : Transaction → ℤ → State → Outcome State (Unit {0}) → Type 0
Validates tx value s (ok _ s') =
    Funds tx.from s s'
    × (nonce_at (account_at s tx.from) < tx.nonce)
    × (ltb_ℤ (purse (account_at s tx.from)) value ≡ false)
Validates tx value s (err e s') =
    Funds tx.from s s'
    × ((e ≡ invalid_nonce) × (tx.nonce ≤ nonce_at (account_at s tx.from))
        ⊎ (e ≡ insufficient_balance)
          × (nonce_at (account_at s tx.from) < tx.nonce)
          × (ltb_ℤ (purse (account_at s tx.from)) value ≡ true))
Validates tx value s panic = ⊥

module _ {s : State} (tx : Transaction) (value : ℤ) (w : IsWellFormed s)
    (amount : tx.amount ≡ some value) where
  check_sender_lem :
      (p : Pointer) (balance : ℤ) (s' : State)
      → (s'.heap p).balance ≡ some balance
      → check_sender p tx s' ≡ (
          if leb tx.nonce (s'.heap p).nonce
          then err invalid_nonce s'
          else if ltb_ℤ balance value
          then err insufficient_balance s'
          else ok tt s')
  unfolding check_sender
  check_sender_lem p balance s' b = ground arith

  -- the two checks, on the account behind the pointer
  check_sender-Validates :
      (p : Pointer) (balance : ℤ) (s' : State)
      → Funds tx.from s s'
      → (s'.heap p).balance ≡ some balance
      → balance ≡ purse (account_at s tx.from)
      → (s'.heap p).nonce ≡ nonce_at (account_at s tx.from)
      → Validates tx value s (check_sender p tx s')
  check_sender-Validates p balance s' f b same n =
      rw (check_sender_lem p balance s' b) (elim (Bool-cases (leb tx.nonce (s'.heap p).nonce)) [
        | inl low ↦ rw (low) (f, inl (refl, ground arith))
        | inr high ↦ elim (Bool-cases (ltb_ℤ balance value)) [
          | inl short ↦ rw (high, short) (f, inr (refl, ground arith, rw⁻¹ (same) short))
          | inr enough ↦ rw (high, enough) (f, ground arith, rw⁻¹ (same) enough)
        ]
      ])

  -- From a well-formed state, the checks of AddTransaction never panic; they give the sender the
  -- test balance where it has nothing, and then accept exactly the transactions with a nonce above
  -- the account's and an amount of at most the balance.
  pub validate-Validates : Validates tx value s (validate tx s)
  unfolding validate
  validate-Validates =
      let (p, e, known) = fund_sender_lem tx.from w in
      let (w1, view1) = funded-Funds tx.from tx.to w in
      let s1 : State = funded tx.from s in
      let s2 : State = opened tx.to s1 in
      let f : Funds tx.from s s2 = looked_up-Funds tx.from tx.to w in
      let known2 : get_account tx.from s2 ≡ some p = get_account-opened tx.to w1 tx.from p known in
      let (balance, b) = balance_known tx.from p f.0 known2 in
      rw (bind_ok s (fund_sender tx.from) _ p s1 e) (
        rw (bind_ok s1 (open_recipient tx.to) _ tt s2 (open_recipient_lem tx.to w1)) (
          check_sender-Validates p balance s2 f b
            (ground (arith, f.1 tx.from, account_at_known s2 tx.from p known2, b))
            (ground (arith, f.1 tx.from, account_at_known s2 tx.from p known2))))

length_zero : {A : Type 0} (xs : List A) → length xs ≡ 0 → xs ≡ []
length_zero [] e = refl
length_zero (x ∷ xs) e = absurd (omega (arith, e))

-- How AddTransaction ends on the sequencer: the transaction is at the end of the pool exactly where
-- it was admitted.
abbrev pub Admits : Transaction → ℤ → Sequencer → Outcome Sequencer (Unit {0}) → Type 0
Admits tx value q (ok _ q') =
    (q' ≡ record q { state = q'.state; tx_pool = q.tx_pool ++ tx ∷ [] })
    × Validates tx value q.state (ok tt q'.state)
Admits tx value q (err e q') =
    (q' ≡ record q { state = q'.state }) × Validates tx value q.state (err e q'.state)
Admits tx value q panic = ⊥

-- A deployment or a call without gas.
abbrev pub MissesGas : Transaction → Type 0
MissesGas tx = ((tx.tx_type ≡ deploy_type) ⊎ (tx.tx_type ≡ call_type)) × (tx.gas ≡ 0)

-- A deployment without code.
abbrev pub MissesCode : Transaction → Type 0
MissesCode tx = (tx.tx_type ≡ deploy_type) × (tx.payload ≡ [])

-- How handleTransaction ends: it refuses exactly the deployments and calls without gas and the
-- deployments without code, and changes nothing then; else it ends as AddTransaction does, and the
-- transaction is at the end of the pool exactly where it was admitted.
abbrev pub Handles : Transaction → ℤ → Sequencer → Outcome Sequencer (Unit {0}) → Type 0
Handles tx value q (ok _ q') =
    (MissesGas tx → ⊥)
    × (MissesCode tx → ⊥)
    × (q' ≡ record q { state = q'.state; tx_pool = q.tx_pool ++ tx ∷ [] })
    × Validates tx value q.state (ok tt q'.state)
Handles tx value q (err e q') =
    (e ≡ gas_required) × MissesGas tx × (q' ≡ q)
    ⊎ (e ≡ bytecode_required) × (MissesGas tx → ⊥) × MissesCode tx × (q' ≡ q)
    ⊎ (MissesGas tx → ⊥)
      × (MissesCode tx → ⊥)
      × (q' ≡ record q { state = q'.state })
      × Validates tx value q.state (err e q'.state)
Handles tx value q panic = ⊥

pooled : Transaction → Outcome Sequencer (Unit {0}) → Outcome Sequencer (Unit {0})
pooled tx r = elim r [
  | ok _ q' ↦ ok tt (record q' { tx_pool = q'.tx_pool ++ tx ∷ [] })
  | err e q' ↦ err e q'
  | panic ↦ panic
]

module _ (q : Sequencer) (tx : Transaction) (value : ℤ) (w : IsWellFormed q.state)
    (amount : tx.amount ≡ some value) where
  pooled-Admits :
      (r : Outcome State (Unit {0}))
      → Validates tx value q.state r
      → Admits tx value q (
          pooled tx (elim r [
            | ok a s ↦ ok a (record q { state = s })
            | err e s ↦ err e (record q { state = s })
            | panic ↦ panic
          ]))
  unfolding pooled
  pooled-Admits (ok a s) h = (refl, h)
  pooled-Admits (err e s) h = (refl, h)
  pooled-Admits panic h = h

  pub add_transaction-Admits : Admits tx value q (add_transaction tx q)
  unfolding add_transaction on_state pooled
  add_transaction-Admits =
      pooled-Admits (validate tx q.state) (validate-Validates tx value w amount)

  Admits-Handles :
      (MissesGas tx → ⊥)
      → (MissesCode tx → ⊥)
      → (r : Outcome Sequencer (Unit {0})) → Admits tx value q r
      → Handles tx value q r
  Admits-Handles gas code (ok _ q') h = (gas, code, h.0, h.1)
  Admits-Handles gas code (err e q') h = inr (inr (gas, code, h.0, h.1))
  Admits-Handles gas code panic h = h

  gas_cases :
      (needs_gas tx && nat_eqb tx.gas 0 ≡ true) × MissesGas tx
      ⊎ (needs_gas tx && nat_eqb tx.gas 0 ≡ false) × (MissesGas tx → ⊥)
  gas_cases = ground arith

  code_cases :
      (nat_eqb tx.tx_type deploy_type && nat_eqb (length tx.payload) 0 ≡ true) × MissesCode tx
      ⊎ (nat_eqb tx.tx_type deploy_type && nat_eqb (length tx.payload) 0 ≡ false)
        × (MissesCode tx → ⊥)
  code_cases = ground (arith, length_zero tx.payload)

  -- From a well-formed state, handleTransaction never panics on a transaction with an amount. It
  -- refuses exactly the deployments and calls without gas and the deployments without code, and
  -- changes nothing then; else it ends with the error that the nonce or the balance calls for, or
  -- with the transaction at the end of the pool.
  pub handle_transaction-Handles : Handles tx value q (handle_transaction tx q)
  unfolding handle_transaction
  handle_transaction-Handles = elim gas_cases [
    | inl (dry, missing) ↦ rw (dry) (inl (refl, missing, refl))
    | inr (fueled, gas) ↦ elim code_cases [
      | inl (bare, missing) ↦ rw (fueled, bare) (inr (inl (refl, gas, missing, refl)))
      | inr (coded, code) ↦
          rw (fueled, coded) (Admits-Handles gas code (add_transaction tx q) add_transaction-Admits)
    ]
  ]
