-- ===== src/Ledger.antt =====
-- pkg/sequencer/sequencer.go, the part that applies a decided batch: processFinalizedBatch up to
-- AddBatch, and the three ways to process a transaction. `sender` is the pointer that
-- GetAccount(tx.From) returned, so the writes of the virtual machine are seen through it.
pub mod Steps
mod Charge
pub mod Transfer
pub mod Call
pub mod Deploy
pub mod Batches
pub mod Numbering
pub mod History
use zkrollup_go.Base.{
  ℕ, ◌+◌, List, [], ◌∷◌, Option, some, none, if◌then◌else◌, nat_eqb, Bool, true, false,
}
use zkrollup_go.Base.Int.{ℤ, pos, ◌+ℤ◌, ◌-ℤ◌, ltb_ℤ, is_zero_ℤ}
use zkrollup_go.Outcome.{
  M, Outcome, ok, err, panic, pure, raise, or_panic, raise_if, modify, ◌>>=◌, ◌>>◌,
  insufficient_balance, unknown_type,
}
use zkrollup_go.State.{
  Address, Pointer, Account, Transaction, Batch, State, u64, transfer_type, deploy_type, call_type,
  get_account, store, set_account, add_batch,
}
use zkrollup_go.State.Accounts.{create_account}
use zkrollup_go.Evm.{execute_contract, deploy_contract}
use zkrollup_go.Evm.Adapter.{StateAdapter, new_state_adapter, apply_changes}

-- `sender.Balance.Cmp(tx.Amount) < 0` ends in the error; a nil on either side panics. (Of two nil
-- values Cmp finds that they are equal, and the next use of the amount panics.)
unfoldable pub check_balance : Pointer → Option ℤ → M State ℤ
check_balance sender value = do
  balance ← (λ s. or_panic (s.heap sender).balance s)
  amount ← or_panic value
  raise_if (ltb_ℤ balance amount) insufficient_balance
  pure (if is_zero_ℤ amount then pos 0 else amount)

-- `sender.Balance = new(big.Int).Sub(sender.Balance, amount); s.state.SetAccount(sender)`
unfoldable pub debit : Pointer → ℤ → M State (Unit {0})
debit sender amount = do
  balance ← (λ s. or_panic (s.heap sender).balance s)
  modify (λ s.
      set_account sender
        (store sender (record (s.heap sender) { balance = some (balance -ℤ amount) }) s))

-- The recipient of a transfer, who may be new.
credit_to : Option Pointer → Address → ℤ → M State (Unit {0})
credit_to none to amount =
    modify (create_account (record { address = to; balance = some amount; nonce = 0 }))
credit_to (some recipient) to amount = do
  balance ← (λ s. or_panic (s.heap recipient).balance s)
  modify (λ s.
      set_account recipient
        (store recipient (record (s.heap recipient) { balance = some (balance +ℤ amount) }) s))

unfoldable pub credit : Address → ℤ → M State (Unit {0})
unfolding credit_to
credit to amount s = credit_to (get_account to s) to amount s

-- `processTransferTransaction`
unfoldable pub process_transfer : Transaction → Pointer → M State (Unit {0})
process_transfer tx sender = do
  amount ← check_balance sender tx.amount
  debit sender amount
  credit tx.to amount

-- A call of the virtual machine on a new adapter; the adapter shares the state.
unfoldable pub on_adapter : {A : Type 0} → M StateAdapter A → M State (A × StateAdapter)
on_adapter run s = elim (run (new_state_adapter s)) [
  | ok result a ↦ ok (result, a) a.rollup_state
  | err e a ↦ err e a.rollup_state
  | panic ↦ panic
]

-- The charge after the virtual machine has run: the balance and the nonce are read through
-- `sender`, so after the writes of ApplyChanges; then ApplyChanges once more.
unfoldable pub charge : Pointer → ℤ → StateAdapter → M State (Unit {0})
charge sender amount a = do
  balance ← (λ s. or_panic (s.heap sender).balance s)
  modify (λ s. set_account sender (
      store sender
        (record (s.heap sender) {
          balance = some (balance -ℤ amount);
          nonce = u64 ((s.heap sender).nonce + 1);
        })
        s))
  modify (λ s. (apply_changes (record a { rollup_state = s })).rollup_state)

-- `processContractCall`
unfoldable pub process_contract_call : Transaction → Pointer → M State (Unit {0})
process_contract_call tx sender = do
  amount ← check_balance sender tx.amount
  result ← on_adapter (execute_contract tx.from tx.to (some amount) tx.gas tx.payload)
  charge sender amount result.1

module _ (create_address : Address → ℕ → Address) where
  -- `processContractDeployment`
  unfoldable pub process_contract_deployment : Transaction → Pointer → M State (Unit {0})
  process_contract_deployment tx sender = do
    amount ← check_balance sender tx.amount
    result ← on_adapter (deploy_contract create_address tx.from (some amount) tx.gas tx.payload)
    charge sender amount result.1

  -- the `switch` on the type
  unfoldable pub process : Transaction → Pointer → M State (Unit {0})
  process tx sender =
      if nat_eqb tx.tx_type transfer_type
      then process_transfer tx sender
      else if nat_eqb tx.tx_type deploy_type
      then process_contract_deployment tx sender
      else if nat_eqb tx.tx_type call_type
      then process_contract_call tx sender
      else raise unknown_type

  -- An error is logged with the hash of the transaction, which reads the amount.
  abbrev after_process : Option ℤ → Outcome State (Unit {0}) → Option State
  after_process amount (ok _ s) = some s
  after_process (some amount) (err e s) = some s
  after_process none (err e s) = none
  after_process amount panic = none

  -- The body of the loop over the transactions; `none` is a panic.
  unfoldable pub process_transaction : Transaction → State → Option State
  process_transaction tx s = elim (get_account tx.from s) [
    | none ↦ some s
    | some sender ↦ after_process tx.amount (process tx sender s)
  ]

  unfoldable pub process_transactions : List Transaction → State → Option State
  process_transactions [] s = some s
  process_transactions (tx ∷ rest) s = elim (process_transaction tx s) [
    | none ↦ none
    | some s' ↦ process_transactions rest s'
  ]

  -- The ledger's part of `processFinalizedBatch`: the batch comes back with its number.
  unfoldable pub finalize : Batch → State → Option (Batch × State)
  finalize batch s = elim (process_transactions batch.transactions s) [
    | none ↦ none
    | some s' ↦ some (add_batch batch s')
  ]
