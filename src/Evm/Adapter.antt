-- ===== src/Evm/Adapter.antt =====
-- pkg/evm/state_adapter.go: changes that are kept aside, read before the rollup state, and written
-- to it by ApplyChanges. The conversions between address types copy the bytes, so they are not
-- written. `none` in place of a result is a dereference of a nil balance.
pub mod Apply
pub mod Views
pub mod Pointers
use zkrollup_go.Base.{
  ℕ, List, [], ◌∷◌, Option, none, some, Map, lookup, insert, nat_eq, if◌then◌else◌,
}
use zkrollup_go.Base.Int.{ℤ, pos, ◌+ℤ◌, ◌-ℤ◌, is_zero_ℤ}
use zkrollup_go.State.{
  Address, Hash, Pointer, Account, State, get_account, store, set_account, set_code, set_storage,
  or_empty,
}
use zkrollup_go.State.Accounts.{create_account}

pub record StateAdapter : Type 0 where
  pub rollup_state : State
  pub balance_changes : Map Address ℤ
  pub nonce_changes : Map Address ℕ
  pub code_changes : Map Address (List ℕ)
  pub storage_changes : Map Address (Map Hash Hash)

unfoldable pub new_state_adapter : State → StateAdapter
new_state_adapter s = record {
  rollup_state = s;
  balance_changes = [];
  nonce_changes = [];
  code_changes = [];
  storage_changes = [];
}

-- a balance or nonce of the rollup state, 0 for an unknown account
abbrev pub balance_or_zero : (Pointer → Account) → Option Pointer → Option ℤ
balance_or_zero heap none = some (pos 0)
balance_or_zero heap (some p) = (heap p).balance

abbrev pub nonce_or_zero : (Pointer → Account) → Option Pointer → ℕ
nonce_or_zero heap none = 0
nonce_or_zero heap (some p) = (heap p).nonce

unfoldable pub get_balance : Address → StateAdapter → Option ℤ
get_balance addr a = elim (lookup addr a.balance_changes) [
  | some balance ↦ some balance
  | none ↦ balance_or_zero a.rollup_state.heap (get_account addr a.rollup_state)
]

unfoldable pub get_nonce : Address → StateAdapter → ℕ
get_nonce addr a = elim (lookup addr a.nonce_changes) [
  | some nonce ↦ nonce
  | none ↦ nonce_or_zero a.rollup_state.heap (get_account addr a.rollup_state)
]

-- Only pending code is ever found: the rollup state is not asked.
unfoldable pub get_code : Address → StateAdapter → List ℕ
get_code addr a = elim (lookup addr a.code_changes) [ some code ↦ code | none ↦ [] ]

unfoldable pub get_state : Address → Hash → StateAdapter → Hash
get_state addr key a = elim (lookup addr a.storage_changes) [
  | some storage ↦ elim (lookup key storage) [ some value ↦ value | none ↦ 0 ]
  | none ↦ 0
]

unfoldable pub set_balance : Address → ℤ → StateAdapter → StateAdapter
set_balance addr amount a = record a {
  balance_changes = insert addr (if is_zero_ℤ amount then pos 0 else amount) a.balance_changes;
}

unfoldable pub set_nonce : Address → ℕ → StateAdapter → StateAdapter
set_nonce addr nonce a = record a { nonce_changes = insert addr nonce a.nonce_changes }

-- `SetCode` of the adapter
unfoldable pub set_pending_code : Address → List ℕ → StateAdapter → StateAdapter
set_pending_code addr code a = record a { code_changes = insert addr code a.code_changes }

unfoldable pub set_state : Address → Hash → Hash → StateAdapter → StateAdapter
set_state addr key value a = record a {
  storage_changes =
      insert addr (insert key value (or_empty (lookup addr a.storage_changes))) a.storage_changes;
}

unfoldable pub sub_balance : Address → ℤ → StateAdapter → Option StateAdapter
sub_balance addr amount a = elim (get_balance addr a) [
  | none ↦ none
  | some balance ↦ some (set_balance addr (balance -ℤ amount) a)
]

unfoldable pub add_balance : Address → ℤ → StateAdapter → Option StateAdapter
add_balance addr amount a = elim (get_balance addr a) [
  | none ↦ none
  | some balance ↦ some (set_balance addr (balance +ℤ amount) a)
]

-- the body of the first loop of `ApplyChanges`
unfoldable pub apply_balance : Address → ℤ → State → State
apply_balance addr balance s = elim (get_account addr s) [
  | none ↦ create_account (record { address = addr; balance = some balance; nonce = 0 }) s
  | some p ↦ set_account p (store p (record (s.heap p) { balance = some balance }) s)
]

unfoldable pub apply_balances : Map Address ℤ → State → State
apply_balances [] s = s
apply_balances ((addr, balance) ∷ rest) s = apply_balances rest (apply_balance addr balance s)

-- the body of the second loop
unfoldable pub apply_nonce : Address → ℕ → State → State
apply_nonce addr nonce s = elim (get_account addr s) [
  | none ↦ create_account (record { address = addr; balance = some (pos 0); nonce = nonce }) s
  | some p ↦ set_account p (store p (record (s.heap p) { nonce = nonce }) s)
]

unfoldable pub apply_nonces : Map Address ℕ → State → State
apply_nonces [] s = s
apply_nonces ((addr, nonce) ∷ rest) s = apply_nonces rest (apply_nonce addr nonce s)

unfoldable pub apply_codes : Map Address (List ℕ) → State → State
apply_codes [] s = s
apply_codes ((addr, code) ∷ rest) s = apply_codes rest (set_code addr code s)

unfoldable pub apply_slots : Address → Map Hash Hash → State → State
apply_slots addr [] s = s
apply_slots addr ((key, value) ∷ rest) s = apply_slots addr rest (set_storage addr key value s)

unfoldable pub apply_storage : Map Address (Map Hash Hash) → State → State
unfolding apply_slots
apply_storage [] s = s
apply_storage ((addr, slots) ∷ rest) s = apply_storage rest (apply_slots addr slots s)

-- The loops take the entries in the order of the lists. (Go's order is random.)
unfoldable pub apply_changes : StateAdapter → StateAdapter
unfolding new_state_adapter
apply_changes a = new_state_adapter (
    apply_storage a.storage_changes (
      apply_codes a.code_changes
        (apply_nonces a.nonce_changes (apply_balances a.balance_changes a.rollup_state))))
