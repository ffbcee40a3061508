-- ===== src/Evm/Deploy.antt =====
-- DeployContract on a new adapter: the pending changes that it writes, and what they do.
use zkrollup_go.Base.{
  ℕ, ◌+◌, ◌-◌, ◌/◌, ◌≡◌, refl, ◌∙◌, sym, ap, List, none, some, if◌then◌else◌, nat_eqb, lookup,
  insert, nat_eq, HasUniqueKeys, [], ◌∷◌, arith, false, inl, inr, Bool-cases, Option-cases,
}
use zkrollup_go.Base.Int.{ℤ, ◌+ℤ◌, ◌-ℤ◌, ltb_ℤ, int_laws, zero_or_self, +ℤ_cancel}
use zkrollup_go.Outcome.{ok, update_or_panic, bind_ok}
use zkrollup_go.State.{Address, State, u64, get_account}
use zkrollup_go.State.Accounts.{IsWellFormed, account_at, IsEntry-get_account}
use zkrollup_go.State.Supply.{funds_of, nonce_at, supply}
use zkrollup_go.Evm.{deploy_contract, transfer_value, normal}
use zkrollup_go.Evm.Adapter.{
  StateAdapter, new_state_adapter, get_balance, get_nonce, set_balance, sub_balance, add_balance,
  set_pending_code, set_nonce, apply_changes,
}
use zkrollup_go.Evm.Supply.{sum_before, sum_after, supply-apply_changes}

-- A balance that no change is pending for is the account's, in a well-formed state.
pub get_balance_fresh :
    (a : StateAdapter) (addr : Address)
    → IsWellFormed a.rollup_state
    → lookup addr a.balance_changes ≡ none
    → get_balance addr a ≡ some (funds_of (account_at a.rollup_state addr))
unfolding get_balance account_at
get_balance_fresh a addr w e = elim (Option-cases (get_account addr a.rollup_state)) [
  | inl missing ↦ ground arith
  | inr (p, known) ↦ ground (arith, IsEntry-get_account addr p w known)
]

pub get_balance_pending :
    (a : StateAdapter) (addr : Address) (balance : ℤ)
    → lookup addr a.balance_changes ≡ some balance
    → get_balance addr a ≡ some balance
unfolding get_balance
get_balance_pending a addr balance e = rw (e, get_balance)

module _ (s : State) (from contract : Address) (value : ℤ) where
  -- What the contract's address holds when the value is added to it.
  abbrev pub held_by : ℤ
  held_by =
      if nat_eqb from contract
      then funds_of (account_at s from) -ℤ value
      else funds_of (account_at s contract)

module _ (s : State) (from contract : Address) (value : ℤ) (code : List ℕ) where
  abbrev pub pending_deploy : StateAdapter
  pending_deploy = record {
    rollup_state = s;
    balance_changes =
        insert contract (held_by s from contract value +ℤ value)
          ((from, funds_of (account_at s from) -ℤ value) ∷ []);
    nonce_changes = (from, u64 (nonce_at (account_at s from) + 1)) ∷ [];
    code_changes = (contract, code) ∷ [];
    storage_changes = [];
  }

  pub pending_unique : HasUniqueKeys pending_deploy.balance_changes
  pending_unique = ground arith

  pending_balanced :
      sum_before pending_deploy.balance_changes s ≡ sum_after pending_deploy.balance_changes
  unfolding sum_before sum_after
  pending_balanced = elim (Bool-cases (nat_eqb from contract)) [
    | inl same ↦ rw same (grind int_laws)
    | inr other ↦ rw other (grind int_laws)
  ]

  -- The virtual machine's own writes conserve the supply.
  pub supply_deploy : IsWellFormed s → supply (apply_changes pending_deploy).rollup_state ≡ supply s
  supply_deploy w = +ℤ_cancel _ _ (sum_before pending_deploy.balance_changes s) (
      supply-apply_changes pending_deploy pending_unique w
      ∙ ap (λ t. supply s +ℤ t) (sym pending_balanced))

module _ (addr : Address) (value balance : ℤ) (a : StateAdapter)
    (held : get_balance addr a ≡ some balance) where
  sub_balance_lem :
      update_or_panic (sub_balance addr value) a
      ≡ ok tt (record a { balance_changes = insert addr (balance -ℤ value) a.balance_changes })
  unfolding sub_balance set_balance
  sub_balance_lem =
      rw (held, update_or_panic)
        (ap (λ z. ok tt (record a { balance_changes = insert addr z a.balance_changes }))
          (zero_or_self (balance -ℤ value)))

  add_balance_lem :
      update_or_panic (add_balance addr value) a
      ≡ ok tt (record a { balance_changes = insert addr (balance +ℤ value) a.balance_changes })
  unfolding add_balance set_balance
  add_balance_lem =
      rw (held, update_or_panic)
        (ap (λ z. ok tt (record a { balance_changes = insert addr z a.balance_changes }))
          (zero_or_self (balance +ℤ value)))

module _ (s : State) (from contract : Address) (value : ℤ) (w : IsWellFormed s) where
  abbrev debited : StateAdapter
  debited = record {
    rollup_state = s;
    balance_changes = (from, funds_of (account_at s from) -ℤ value) ∷ [];
    nonce_changes = [];
    code_changes = [];
    storage_changes = [];
  }

  get_balance-debited : get_balance contract debited ≡ some (held_by s from contract value)
  get_balance-debited = elim (Bool-cases (nat_eqb from contract)) [
    | inl same ↦ rw same (get_balance_pending debited contract _ (rw same))
    | inr other ↦ rw other (get_balance_fresh debited contract w (rw other))
  ]

  abbrev credited : StateAdapter
  credited = record debited {
    balance_changes =
        insert contract (held_by s from contract value +ℤ value) debited.balance_changes;
  }

  transfer_value_fresh : transfer_value from contract value (new_state_adapter s) ≡ ok tt credited
  unfolding transfer_value new_state_adapter
  transfer_value_fresh =
      bind_ok (new_state_adapter s) (update_or_panic (sub_balance from (normal value)))
        (λ _. update_or_panic (add_balance contract (normal value))) tt debited
        (rw (zero_or_self value) (
          sub_balance_lem from value (funds_of (account_at s from)) (new_state_adapter s)
            (get_balance_fresh (new_state_adapter s) from w refl)))
      ∙ rw (zero_or_self value) (
          add_balance_lem contract value (held_by s from contract value) debited
            get_balance-debited)

-- On a new adapter over a well-formed state, a deployment that the caller can pay for succeeds; it
-- leaves half of the gas and has applied exactly the pending changes above.
module _ {s : State} (create_address : Address → ℕ → Address) (from : Address) (value : ℤ) (gas : ℕ)
    (code : List ℕ) (w : IsWellFormed s) where
  abbrev pub new_contract : Address
  new_contract = create_address from (nonce_at (account_at s from))

  get_nonce_fresh : get_nonce from (new_state_adapter s) ≡ nonce_at (account_at s from)
  unfolding get_nonce new_state_adapter account_at
  get_nonce_fresh = ground arith

  pub deploy_contract_ok :
      ltb_ℤ (funds_of (account_at s from)) value ≡ false
      → deploy_contract create_address from (some value) gas code (new_state_adapter s)
        ≡ ok
            (new_contract, gas - gas / 2)
            (apply_changes (pending_deploy s from new_contract value code))
  unfolding deploy_contract set_pending_code set_nonce new_state_adapter
  deploy_contract_ok enough = ground (
    arith,
    get_balance_fresh (new_state_adapter s) from w refl,
    get_nonce_fresh,
    transfer_value_fresh s from new_contract value w,
  )
