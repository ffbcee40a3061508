-- ===== src/Ledger/Numbering.antt =====
-- The list of batches beside the virtual machine, which does not touch it.
use zkrollup_go.Base.{◌≡◌, refl, ◌∙◌, ℕ, List, [], ◌∷◌, Option, Map, inl, inr, Option-cases}
use zkrollup_go.Base.Int.{ℤ}
use zkrollup_go.Outcome.{or_panic, update_or_panic}
use zkrollup_go.Outcome.Frame.{Leaves, Keeps, keeps, or_panic-Keeps}
use zkrollup_go.State.{
  Address, Hash, Pointer, Batch, State, get_account, store, set_account, new_account, set_code,
  set_storage,
}
use zkrollup_go.State.Accounts.{create_account}
use zkrollup_go.Evm.{transfer_value, execute_contract, deploy_contract}
use zkrollup_go.Evm.Adapter.{
  StateAdapter, new_state_adapter, apply_balance, apply_balances, apply_nonce, apply_nonces,
  apply_codes, apply_slots, apply_storage, apply_changes, sub_balance, add_balance, set_balance,
  set_nonce, set_pending_code, get_balance,
}

-- The batches so far and the number of the next one.
abbrev pub history : State → List Batch × ℕ
history s = (s.batches, s.batch_number)

history-apply_balance :
    (addr : Address) (balance : ℤ) (s : State) → history (apply_balance addr balance s) ≡ history s
unfolding create_account set_account new_account store apply_balance
history-apply_balance addr balance s = elim (Option-cases (get_account addr s)) [
  | inl e ↦ rw (e, apply_balance) refl
  | inr (p, e) ↦ rw (e, apply_balance) refl
]

history-apply_nonce :
    (addr : Address) (nonce : ℕ) (s : State) → history (apply_nonce addr nonce s) ≡ history s
unfolding create_account set_account new_account store apply_nonce
history-apply_nonce addr nonce s = elim (Option-cases (get_account addr s)) [
  | inl e ↦ rw (e, apply_nonce) refl
  | inr (p, e) ↦ rw (e, apply_nonce) refl
]

history-apply_balances : (m : Map Address ℤ) (s : State) → history (apply_balances m s) ≡ history s
unfolding apply_balances
history-apply_balances [] s = refl
history-apply_balances ((addr, balance) ∷ m) s =
    history-apply_balances m (apply_balance addr balance s) ∙ history-apply_balance addr balance s

history-apply_nonces : (m : Map Address ℕ) (s : State) → history (apply_nonces m s) ≡ history s
unfolding apply_nonces
history-apply_nonces [] s = refl
history-apply_nonces ((addr, nonce) ∷ m) s =
    history-apply_nonces m (apply_nonce addr nonce s) ∙ history-apply_nonce addr nonce s

history-apply_codes : (m : Map Address (List ℕ)) (s : State) → history (apply_codes m s) ≡ history s
unfolding apply_codes set_code
history-apply_codes [] s = refl
history-apply_codes ((addr, code) ∷ m) s = history-apply_codes m (set_code addr code s)

history-apply_slots :
    (addr : Address) (m : Map Hash Hash) (s : State) → history (apply_slots addr m s) ≡ history s
unfolding apply_slots set_storage
history-apply_slots addr [] s = refl
history-apply_slots addr ((key, value) ∷ m) s =
    history-apply_slots addr m (set_storage addr key value s)

history-apply_storage :
    (m : Map Address (Map Hash Hash)) (s : State) → history (apply_storage m s) ≡ history s
unfolding apply_storage
history-apply_storage [] s = refl
history-apply_storage ((addr, slots) ∷ m) s =
    history-apply_storage m (apply_slots addr slots s) ∙ history-apply_slots addr slots s

pub history-apply_changes :
    (a : StateAdapter) → history (apply_changes a).rollup_state ≡ history a.rollup_state
unfolding apply_changes new_state_adapter
history-apply_changes a =
    history-apply_storage a.storage_changes _
    ∙ history-apply_codes a.code_changes _
    ∙ history-apply_nonces a.nonce_changes _
    ∙ history-apply_balances a.balance_changes a.rollup_state

module _ (h : List Batch × ℕ) where
  abbrev pub Has : State → Type 0
  Has s = history s ≡ h

  abbrev pub OnAdapter : StateAdapter → Type 0
  OnAdapter a = Has a.rollup_state

  apply_changes-OnAdapter : (a : StateAdapter) → OnAdapter a → OnAdapter (apply_changes a)
  apply_changes-OnAdapter a has = history-apply_changes a ∙ has

  pub balance_or_panic-Keeps : (p : Pointer) → Keeps Has (λ s. or_panic (s.heap p).balance s)
  balance_or_panic-Keeps p = record {
    run = λ s has. (or_panic-Keeps Has (s.heap p).balance).run s has;
  }

  get_balance-or_panic-Keeps :
      (addr : Address) → Keeps OnAdapter (λ a. or_panic (get_balance addr a) a)
  get_balance-or_panic-Keeps addr = record {
    run = λ a has. (or_panic-Keeps OnAdapter (get_balance addr a)).run a has;
  }

  sub_balance-Keeps :
      (addr : Address) (amount : ℤ) → Keeps OnAdapter (update_or_panic (sub_balance addr amount))
  unfolding sub_balance set_balance
  sub_balance-Keeps addr amount = record {
    run = λ a has. elim (Option-cases (get_balance addr a)) [
      | inl e ↦ rw (e, update_or_panic, sub_balance, Leaves) tt
      | inr (balance, e) ↦ rw (e, update_or_panic, sub_balance, Leaves) has
    ];
  }

  add_balance-Keeps :
      (addr : Address) (amount : ℤ) → Keeps OnAdapter (update_or_panic (add_balance addr amount))
  unfolding add_balance set_balance
  add_balance-Keeps addr amount = record {
    run = λ a has. elim (Option-cases (get_balance addr a)) [
      | inl e ↦ rw (e, update_or_panic, add_balance, Leaves) tt
      | inr (balance, e) ↦ rw (e, update_or_panic, add_balance, Leaves) has
    ];
  }

  ruleset on_adapter_laws = (
    keeps, apply_changes-OnAdapter, get_balance-or_panic-Keeps, sub_balance-Keeps,
    add_balance-Keeps,
  )

  transfer_value-Keeps :
      (from to : Address) (value : ℤ) → Keeps OnAdapter (transfer_value from to value)
  unfolding transfer_value
  transfer_value-Keeps from to value = search on_adapter_laws

  pub execute_contract-Keeps :
      (from to : Address) (value : Option ℤ) (gas : ℕ) (input : List ℕ)
      → Keeps OnAdapter (execute_contract from to value gas input)
  unfolding execute_contract
  execute_contract-Keeps from to value gas input =
      search (on_adapter_laws, transfer_value-Keeps) depth 16

  pub deploy_contract-Keeps :
      (create_address : Address → ℕ → Address) (from : Address) (value : Option ℤ) (gas : ℕ)
      (input : List ℕ)
      → Keeps OnAdapter (deploy_contract create_address from value gas input)
  unfolding deploy_contract set_pending_code set_nonce
  deploy_contract-Keeps create_address from value gas input =
      search (on_adapter_laws, transfer_value-Keeps) depth 20
