-- ===== src/Ledger/History.antt =====
-- The list of batches: no transaction touches it, and each batch gets the next number.
use zkrollup_go.Base.{◌≡◌, refl, ◌∙◌, ℕ, List, [], ◌∷◌, Option, none, some, arith}
use zkrollup_go.Base.Int.{ℤ}
use zkrollup_go.Outcome.{M, Outcome, ok, err, panic}
use zkrollup_go.Outcome.Frame.{Leaves, Keeps, keeps}
use zkrollup_go.State.{
  Address, Pointer, Transaction, Batch, State, get_account, store, set_account, new_account,
}
use zkrollup_go.State.Accounts.{create_account}
use zkrollup_go.Evm.Adapter.{StateAdapter, new_state_adapter, apply_changes}
use zkrollup_go.Ledger.{
  check_balance, debit, credit_to, credit, process_transfer, on_adapter, charge,
  process_contract_call, process_contract_deployment, process, process_transaction,
  process_transactions, after_process,
}
use zkrollup_go.Ledger.Numbering.{
  history, Has, OnAdapter, balance_or_panic-Keeps, execute_contract-Keeps, deploy_contract-Keeps,
  history-apply_changes,
}

module _ (h : List Batch × ℕ) where
  ruleset ledger_laws = (keeps, balance_or_panic-Keeps)

  check_balance-Keeps : (p : Pointer) (value : Option ℤ) → Keeps (Has h) (check_balance p value)
  unfolding check_balance
  check_balance-Keeps p value = search ledger_laws depth 12

  debit-Keeps : (p : Pointer) (amount : ℤ) → Keeps (Has h) (debit p amount)
  unfolding debit set_account store
  debit-Keeps p amount = search ledger_laws depth 12

  credit_to-Keeps :
      (o : Option Pointer) (to : Address) (amount : ℤ) → Keeps (Has h) (credit_to o to amount)
  unfolding credit_to create_account new_account set_account store
  credit_to-Keeps none to amount = search ledger_laws depth 12
  credit_to-Keeps (some p) to amount = search ledger_laws depth 12

  credit-Keeps : (to : Address) (amount : ℤ) → Keeps (Has h) (credit to amount)
  unfolding credit
  credit-Keeps to amount = record {
    run = λ s has. (credit_to-Keeps (get_account to s) to amount).run s has;
  }

  process_transfer-Keeps : (tx : Transaction) (p : Pointer) → Keeps (Has h) (process_transfer tx p)
  unfolding process_transfer
  process_transfer-Keeps tx p =
      search (ledger_laws, check_balance-Keeps, debit-Keeps, credit-Keeps) depth 12

  on_adapter-Keeps :
      {A : Type 0} (run : M StateAdapter A)
      → Keeps (OnAdapter h) run
      → Keeps (Has h) (on_adapter run)
  unfolding on_adapter new_state_adapter
  on_adapter-Keeps {A} run k = record {
    run = λ s has. go (run (new_state_adapter s)) (k.run (new_state_adapter s) has);
  }
    where
      go :
          (r : Outcome StateAdapter A)
          → Leaves (OnAdapter h) r
          → Leaves {A = A × StateAdapter} (Has h) (elim r [
            | ok result a ↦ ok (result, a) a.rollup_state
            | err e a ↦ err e a.rollup_state
            | panic ↦ panic
          ])
      go (ok result a) has = has
      go (err e a) has = has
      go panic has = tt

  apply_changes-Has :
      (a : StateAdapter) (s : State)
      → Has h s
      → Has h (apply_changes (record a { rollup_state = s })).rollup_state
  apply_changes-Has a s has = history-apply_changes (record a { rollup_state = s }) ∙ has

  charge-Keeps : (p : Pointer) (amount : ℤ) (a : StateAdapter) → Keeps (Has h) (charge p amount a)
  unfolding charge set_account store
  charge-Keeps p amount a = search (ledger_laws, apply_changes-Has) depth 12

  process_contract_call-Keeps :
      (tx : Transaction) (p : Pointer) → Keeps (Has h) (process_contract_call tx p)
  unfolding process_contract_call
  process_contract_call-Keeps tx p =
      search
        (ledger_laws, check_balance-Keeps, on_adapter-Keeps, execute_contract-Keeps, charge-Keeps)
        depth 12

module _ (create_address : Address → ℕ → Address) (h : List Batch × ℕ) where
  process_contract_deployment-Keeps :
      (tx : Transaction) (p : Pointer)
      → Keeps (Has h) (process_contract_deployment create_address tx p)
  unfolding process_contract_deployment
  process_contract_deployment-Keeps tx p =
      search
        (ledger_laws, check_balance-Keeps, on_adapter-Keeps, deploy_contract-Keeps, charge-Keeps)
        depth 12

  process-Keeps : (tx : Transaction) (p : Pointer) → Keeps (Has h) (process create_address tx p)
  unfolding process
  process-Keeps tx p =
      search
        (
          ledger_laws, process_transfer-Keeps, process_contract_deployment-Keeps,
          process_contract_call-Keeps,
        )
        depth 12

  after_process-Has :
      (amount : Option ℤ) (r : Outcome State (Unit {0})) (s' : State)
      → Leaves (Has h) r
      → after_process create_address amount r ≡ some s'
      → Has h s'
  after_process-Has amount (ok _ s) s' has e = ground arith
  after_process-Has (some amount) (err _ s) s' has e = ground arith
  after_process-Has none (err _ s) s' has e = absurd (ground arith)
  after_process-Has amount panic s' has e = absurd (ground arith)

module _ (create_address : Address → ℕ → Address) where
  history-process_transaction :
      (tx : Transaction) (s s' : State)
      → process_transaction create_address tx s ≡ some s'
      → history s' ≡ history s
  unfolding process_transaction
  history-process_transaction tx s s' e = go (get_account tx.from s) e
    where
      go :
          (o : Option Pointer)
          → elim o [
            | none ↦ some s
            | some p ↦ after_process create_address tx.amount (process create_address tx p s)
          ]
            ≡ some s'
          → history s' ≡ history s
      go none e = ground arith
      go (some p) e =
          after_process-Has create_address (history s) tx.amount (process create_address tx p s) s'
            ((process-Keeps create_address (history s) tx p).run s refl) e

  pub history-process_transactions :
      (txs : List Transaction) (s s' : State)
      → process_transactions create_address txs s ≡ some s'
      → history s' ≡ history s
  unfolding process_transactions
  history-process_transactions [] s s' e = ground arith
  history-process_transactions (tx ∷ rest) s s' e =
      go (process_transaction create_address tx s) refl e
        (λ t. history-process_transactions rest t s')
    where
      go :
          (o : Option State)
          → process_transaction create_address tx s ≡ o
          → elim o [ none ↦ none | some t ↦ process_transactions create_address rest t ] ≡ some s'
          → ((t : State)
              → process_transactions create_address rest t ≡ some s'
              → history s' ≡ history t)
          → history s' ≡ history s
      go none step e later = absurd (ground arith)
      go (some t) step e later = later t e ∙ history-process_transaction tx s t step
