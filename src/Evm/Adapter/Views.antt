-- ===== src/Evm/Adapter/Views.antt =====
-- ApplyChanges makes the pending changes real: what the adapter reads before it is what the rollup
-- state holds after it, at every address and whatever the order of the loops.
use zkrollup_go.Base.{
  ℕ, ◌≡◌, refl, ◌∙◌, ap, List, Option, none, some, Map, lookup, nat_eq, HasUniqueKeys, [], ◌∷◌,
  arith,
}
use zkrollup_go.Base.Int.{ℤ, pos}
use zkrollup_go.State.{Address, Hash, Account, State, set_code, set_storage}
use zkrollup_go.State.Accounts.{IsWellFormed, account_at}
use zkrollup_go.Evm.Adapter.{
  StateAdapter, apply_balances, apply_nonces, apply_codes, apply_storage, apply_slots,
  apply_changes, apply_balance, apply_nonce, get_balance, get_nonce,
}
use zkrollup_go.Evm.Adapter.Apply.{
  with_balance, with_nonce, apply_balance-IsWellFormed, account_at-apply_balance,
  apply_nonce-IsWellFormed, account_at-apply_nonce,
}

abbrev balance_of : Option Account → Option ℤ
balance_of none = some (pos 0)
balance_of (some account) = account.balance

abbrev nonce_of : Option Account → ℕ
nonce_of none = 0
nonce_of (some account) = account.nonce

abbrev pub balance_overlay : Address → Option ℤ → Option Account → Option Account
balance_overlay addr none account = account
balance_overlay addr (some balance) account = some (with_balance addr balance account)

abbrev pub nonce_overlay : Address → Option ℕ → Option Account → Option Account
nonce_overlay addr none account = account
nonce_overlay addr (some nonce) account = some (with_nonce addr nonce account)

pub apply_balances-IsWellFormed :
    (m : Map Address ℤ) (s : State) → IsWellFormed s → IsWellFormed (apply_balances m s)
unfolding apply_balances
apply_balances-IsWellFormed [] s w = w
apply_balances-IsWellFormed ((addr, balance) ∷ m) s w =
    apply_balances-IsWellFormed m (apply_balance addr balance s)
      (apply_balance-IsWellFormed addr balance w)

pub apply_nonces-IsWellFormed :
    (m : Map Address ℕ) (s : State) → IsWellFormed s → IsWellFormed (apply_nonces m s)
unfolding apply_nonces
apply_nonces-IsWellFormed [] s w = w
apply_nonces-IsWellFormed ((addr, nonce) ∷ m) s w =
    apply_nonces-IsWellFormed m (apply_nonce addr nonce s) (apply_nonce-IsWellFormed addr nonce w)

pub account_at-apply_balances :
    (m : Map Address ℤ) (s : State) (b : Address)
    → HasUniqueKeys m
    → IsWellFormed s
    → account_at (apply_balances m s) b ≡ balance_overlay b (lookup b m) (account_at s b)
unfolding apply_balances
account_at-apply_balances [] s b u w = refl
account_at-apply_balances ((addr, balance) ∷ m) s b u w = ground (
  arith,
  account_at-apply_balances m (apply_balance addr balance s) b u.1
      (apply_balance-IsWellFormed addr balance w),
  account_at-apply_balance addr balance w b,
)

pub account_at-apply_nonces :
    (m : Map Address ℕ) (s : State) (b : Address)
    → HasUniqueKeys m
    → IsWellFormed s
    → account_at (apply_nonces m s) b ≡ nonce_overlay b (lookup b m) (account_at s b)
unfolding apply_nonces
account_at-apply_nonces [] s b u w = refl
account_at-apply_nonces ((addr, nonce) ∷ m) s b u w = ground (
  arith,
  account_at-apply_nonces m (apply_nonce addr nonce s) b u.1
      (apply_nonce-IsWellFormed addr nonce w),
  account_at-apply_nonce addr nonce w b,
)

-- The last two loops leave the accounts alone.
apply_codes-IsWellFormed :
    (m : Map Address (List ℕ)) (s : State) → IsWellFormed s → IsWellFormed (apply_codes m s)
unfolding apply_codes set_code
apply_codes-IsWellFormed [] s w = w
apply_codes-IsWellFormed ((addr, code) ∷ m) s w =
    apply_codes-IsWellFormed m (set_code addr code s)
      (record { entries = w.entries; unique = w.unique })

account_at-apply_codes :
    (m : Map Address (List ℕ)) (s : State) (b : Address)
    → account_at (apply_codes m s) b ≡ account_at s b
unfolding apply_codes set_code account_at
account_at-apply_codes [] s b = refl
account_at-apply_codes ((addr, code) ∷ m) s b = account_at-apply_codes m (set_code addr code s) b

apply_slots-IsWellFormed :
    (addr : Address) (m : Map Hash Hash) (s : State)
    → IsWellFormed s
    → IsWellFormed (apply_slots addr m s)
unfolding apply_slots set_storage
apply_slots-IsWellFormed addr [] s w = w
apply_slots-IsWellFormed addr ((key, value) ∷ m) s w =
    apply_slots-IsWellFormed addr m (set_storage addr key value s)
      (record { entries = w.entries; unique = w.unique })

account_at-apply_slots :
    (addr : Address) (m : Map Hash Hash) (s : State) (b : Address)
    → account_at (apply_slots addr m s) b ≡ account_at s b
unfolding apply_slots set_storage account_at
account_at-apply_slots addr [] s b = refl
account_at-apply_slots addr ((key, value) ∷ m) s b =
    account_at-apply_slots addr m (set_storage addr key value s) b

apply_storage-IsWellFormed :
    (m : Map Address (Map Hash Hash)) (s : State)
    → IsWellFormed s
    → IsWellFormed (apply_storage m s)
unfolding apply_storage
apply_storage-IsWellFormed [] s w = w
apply_storage-IsWellFormed ((addr, slots) ∷ m) s w =
    apply_storage-IsWellFormed m (apply_slots addr slots s)
      (apply_slots-IsWellFormed addr slots s w)

account_at-apply_storage :
    (m : Map Address (Map Hash Hash)) (s : State) (b : Address)
    → account_at (apply_storage m s) b ≡ account_at s b
unfolding apply_storage
account_at-apply_storage [] s b = refl
account_at-apply_storage ((addr, slots) ∷ m) s b =
    account_at-apply_storage m (apply_slots addr slots s) b ∙ account_at-apply_slots addr slots s b

pub apply_changes-IsWellFormed :
    (a : StateAdapter) → IsWellFormed a.rollup_state → IsWellFormed (apply_changes a).rollup_state
unfolding apply_changes
apply_changes-IsWellFormed a w = apply_storage-IsWellFormed a.storage_changes _ (
    apply_codes-IsWellFormed a.code_changes _ (
      apply_nonces-IsWellFormed a.nonce_changes _
        (apply_balances-IsWellFormed a.balance_changes a.rollup_state w)))

-- The accounts after ApplyChanges are the old ones under the pending balances and nonces.
pub account_at-apply_changes :
    (a : StateAdapter) (b : Address)
    → HasUniqueKeys a.balance_changes
    → HasUniqueKeys a.nonce_changes
    → IsWellFormed a.rollup_state
    → account_at (apply_changes a).rollup_state b
      ≡ nonce_overlay b
          (lookup b a.nonce_changes)
          (balance_overlay b (lookup b a.balance_changes) (account_at a.rollup_state b))
unfolding apply_changes
account_at-apply_changes a b ub un w =
    account_at-apply_storage a.storage_changes _ b
    ∙ account_at-apply_codes a.code_changes _ b
    ∙ account_at-apply_nonces a.nonce_changes _ b un
        (apply_balances-IsWellFormed a.balance_changes a.rollup_state w)
    ∙ ap (nonce_overlay b (lookup b a.nonce_changes))
        (account_at-apply_balances a.balance_changes a.rollup_state b ub w)

module _ (a : StateAdapter) (b : Address) where
  get_balance_view : get_balance b a ≡ (elim (lookup b a.balance_changes) [
    | some balance ↦ some balance
    | none ↦ balance_of (account_at a.rollup_state b)
  ])
  unfolding get_balance account_at
  get_balance_view = ground arith

  get_nonce_view : get_nonce b a ≡ (elim (lookup b a.nonce_changes) [
    | some nonce ↦ nonce
    | none ↦ nonce_of (account_at a.rollup_state b)
  ])
  unfolding get_nonce account_at
  get_nonce_view = ground arith

module _ (a : StateAdapter) (b : Address) (ub : HasUniqueKeys a.balance_changes)
    (un : HasUniqueKeys a.nonce_changes) (w : IsWellFormed a.rollup_state) where
  -- From a well-formed state and pending maps without repeated keys, ApplyChanges leaves nothing
  -- pending, neither balances and nonces nor code and storage, and every balance and nonce that the
  -- adapter read before it is read after it too.
  pub reads-apply_changes :
      (get_balance b (apply_changes a) ≡ get_balance b a)
      × (get_nonce b (apply_changes a) ≡ get_nonce b a)
      × ((apply_changes a).balance_changes ≡ [])
      × ((apply_changes a).nonce_changes ≡ [])
      × ((apply_changes a).code_changes ≡ [])
      × ((apply_changes a).storage_changes ≡ [])
  unfolding apply_changes
  reads-apply_changes = (
    ground (
      arith,
      get_balance_view (apply_changes a) b,
      get_balance_view a b,
      account_at-apply_changes a b ub un w,
    ),
    ground (
      arith,
      get_nonce_view (apply_changes a) b,
      get_nonce_view a b,
      account_at-apply_changes a b ub un w,
    ),
    refl,
    refl,
    refl,
    refl,
  )
