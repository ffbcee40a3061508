-- ===== src/Tests/States.antt =====
-- The theorem about the state root at two states with the same accounts.
use zkrollup_go.Base.{◌≡◌, arith, nat_eq}
use zkrollup_go.State.{State, new_state, get_state_root}
use zkrollup_go.State.Accounts.{
  IsWellFormed, account_at, create_account, new_state-IsWellFormed, create_account-IsWellFormed,
}
use zkrollup_go.State.Root.{get_state_root-account_at}
use zkrollup_go.Tests.{alice, bob, book, book-IsWellFormed}

-- the same accounts, opened in the other order
abbrev ledger : State
ledger = create_account alice (create_account bob new_state)

ledger-IsWellFormed : IsWellFormed ledger
ledger-IsWellFormed =
    create_account-IsWellFormed alice (create_account-IsWellFormed bob new_state-IsWellFormed tt) tt

get_state_root-account_at_example : get_state_root book ≡ get_state_root ledger
unfolding account_at create_account
get_state_root-account_at_example =
    get_state_root-account_at book ledger book-IsWellFormed ledger-IsWellFormed (λ a. ground arith)
