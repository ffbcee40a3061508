-- ===== src/Tests.antt =====
-- The theorems about accounts, the virtual machine and the ledger at concrete inputs, and runs of
-- the definitions.
mod Agreement
mod Rounds
mod States
mod Intake
mod Trees
mod Proofs
mod Ceremonies
mod Peers
mod Nodes
mod Requests
mod Clients
mod Contracts
use zkrollup_go.Base.{◌≡◌, refl, some, [], ◌∷◌, ℕ, ◌+◌, arith}
use zkrollup_go.Base.Int.{pos, ◌≤ℤ◌, ◌+ℤ◌}
use zkrollup_go.Evm.Supply.{sum_before, sum_after, supply-apply_changes}
use zkrollup_go.State.{Address, Account, Transaction, State, new_state, get_account, store}
use zkrollup_go.State.Accounts.{
  IsWellFormed, account_at, create_account, new_state-IsWellFormed, create_account-IsWellFormed,
}
use zkrollup_go.State.Supply.{supply, nonce_at}
use zkrollup_go.Evm.Adapter.{StateAdapter, get_balance, get_nonce, apply_changes}
use zkrollup_go.Evm.Adapter.Views.{reads-apply_changes}
use zkrollup_go.Ledger.{process_transfer, process_contract_deployment, process_transactions}
use zkrollup_go.Ledger.Transfer.{Transfers, process_transfer-Transfers}
use zkrollup_go.Ledger.Deploy.{Deploys, process_contract_deployment-Deploys}
use zkrollup_go.Ledger.Batches.{process_transactions_settle, process_transactions_conserve}

abbrev pub alice : Account
alice = record { address = 1; balance = some (pos 100); nonce = 4 }

abbrev pub bob : Account
bob = record { address = 2; balance = some (pos 5); nonce = 0 }

abbrev book : State
book = create_account bob (create_account alice new_state)

book-IsWellFormed : IsWellFormed book
book-IsWellFormed =
    create_account-IsWellFormed bob (create_account-IsWellFormed alice new_state-IsWellFormed tt) tt

abbrev payment : Transaction
payment = record {
  tx_type = 0;
  from = 1;
  to = 2;
  amount = some (pos 30);
  nonce = 5;
  payload = [];
  gas = 0;
  signature = [];
}

abbrev deployment : Transaction
deployment = record payment { tx_type = 1; payload = 96 ∷ []; gas = 10 }

abbrev call : Transaction
call = record payment { tx_type = 2; gas = 10 }

-- stands for the address that go-ethereum derives
abbrev address_of : Address → ℕ → Address
address_of caller nonce = 1000 + caller + nonce

process_transfer-Transfers_example : Transfers 1 2 (pos 30) book (process_transfer payment 0 book)
unfolding get_account create_account store
process_transfer-Transfers_example =
    process_transfer-Transfers payment 0 (pos 30) book-IsWellFormed refl refl

process_contract_deployment-Deploys_example :
    Deploys 1
      (address_of 1 (nonce_at (account_at book 1)))
      (pos 30)
      book
      (process_contract_deployment address_of deployment 0 book)
unfolding get_account create_account store
process_contract_deployment-Deploys_example =
    process_contract_deployment-Deploys address_of deployment 0 (pos 30) book-IsWellFormed refl refl

process_transactions_settle_example :
    (s' : State) × (process_transactions address_of (payment ∷ deployment ∷ call ∷ []) book
      ≡ some s')
    × IsWellFormed s'
    × (supply s' ≤ℤ supply book)
process_transactions_settle_example =
    process_transactions_settle address_of (payment ∷ deployment ∷ call ∷ []) book (omega arith)
      book-IsWellFormed

process_transactions_conserve_example :
    (s' : State) × (process_transactions address_of (payment ∷ call ∷ []) book ≡ some s')
    × IsWellFormed s'
    × (supply s' ≡ supply book)
process_transactions_conserve_example =
    process_transactions_conserve address_of (payment ∷ call ∷ []) book
      (((λ e. cc), refl), (((λ e. cc), refl), tt)) book-IsWellFormed

abbrev adapter : StateAdapter
adapter = record {
  rollup_state = book;
  balance_changes = (1, pos 70) ∷ (7, pos 30) ∷ [];
  nonce_changes = (1, 5) ∷ [];
  code_changes = (7, 96 ∷ []) ∷ [];
  storage_changes = [];
}

reads-apply_changes_example :
    (get_balance 7 (apply_changes adapter) ≡ get_balance 7 adapter)
    × (get_nonce 7 (apply_changes adapter) ≡ get_nonce 7 adapter)
    × ((apply_changes adapter).balance_changes ≡ [])
    × ((apply_changes adapter).nonce_changes ≡ [])
    × ((apply_changes adapter).code_changes ≡ [])
    × ((apply_changes adapter).storage_changes ≡ [])
reads-apply_changes_example =
    reads-apply_changes adapter 7 (refl, (refl, tt)) (refl, tt) book-IsWellFormed
