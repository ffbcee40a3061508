-- ===== src/Evm/Supply.antt =====
-- What ApplyChanges does to the supply, and that the virtual machine conserves it.
use zkrollup_go.Base.{
  ℕ, ◌≡◌, refl, ◌∙◌, ap, List, some, Map, contains, nat_eq, HasUniqueKeys, [], ◌∷◌, arith, false,
  inl, inr, Option-cases,
}
use zkrollup_go.Base.Int.{ℤ, pos, ◌+ℤ◌, int_laws}
use zkrollup_go.State.{Address, Hash, State, get_account, set_code, set_storage}
use zkrollup_go.State.Accounts.{
  IsWellFormed, account_at, IsEntry-get_account, account_at_known, account_at_missing,
}
use zkrollup_go.State.Supply.{funds_of, supply, supply-store, supply-create}
use zkrollup_go.Evm.Adapter.{
  StateAdapter, apply_balances, apply_nonces, apply_codes, apply_storage, apply_slots,
  apply_changes, apply_balance, apply_nonce,
}
use zkrollup_go.Evm.Adapter.Apply.{
  apply_balance-IsWellFormed, account_at-apply_balance, apply_nonce-IsWellFormed,
  apply_balance_missing, apply_balance_known, apply_nonce_missing, apply_nonce_known,
}
use zkrollup_go.Evm.Adapter.Views.{apply_balances-IsWellFormed}

-- The money at the addresses of a list of pending balances, before and after they are written.
unfoldable pub sum_before : Map Address ℤ → State → ℤ
sum_before [] s = pos 0
sum_before ((addr, balance) ∷ m) s = funds_of (account_at s addr) +ℤ sum_before m s

unfoldable pub sum_after : Map Address ℤ → ℤ
sum_after [] = pos 0
sum_after ((addr, balance) ∷ m) = balance +ℤ sum_after m

pub supply-apply_balance :
    {s : State} (addr : Address) (balance : ℤ)
    → IsWellFormed s
    → supply (apply_balance addr balance s) +ℤ funds_of (account_at s addr) ≡ supply s +ℤ balance
supply-apply_balance {s} addr balance w = elim (Option-cases (get_account addr s)) [
  | inl e ↦
      rw (apply_balance_missing s addr balance e, account_at_missing s addr e)
        (grind (
          int_laws,
          supply-create {s = s} (record { address = addr; balance = some balance; nonce = 0 }) w e,
        ))
  | inr (p, e) ↦
      rw (apply_balance_known s addr balance w p e, account_at_known s addr p e)
        (supply-store p _ w (rw (IsEntry-get_account addr p w e).1 e))
]

pub supply-apply_nonce :
    {s : State} (addr : Address) (nonce : ℕ)
    → IsWellFormed s
    → supply (apply_nonce addr nonce s) ≡ supply s
supply-apply_nonce {s} addr nonce w = elim (Option-cases (get_account addr s)) [
  | inl e ↦ rw (apply_nonce_missing s addr nonce e) (
      grind (
        int_laws,
        supply-create {s = s} (record { address = addr; balance = some (pos 0); nonce = nonce }) w
            e,
      ))
  | inr (p, e) ↦ rw (apply_nonce_known s addr nonce w p e) (
      grind (
        int_laws,
        supply-store p (record (s.heap p) { nonce = nonce }) w
            (rw (IsEntry-get_account addr p w e).1 e),
      ))
]

sum_before_other :
    {s : State} (addr : Address) (balance : ℤ) (m : Map Address ℤ)
    → IsWellFormed s
    → contains addr m ≡ false
    → sum_before m (apply_balance addr balance s) ≡ sum_before m s
unfolding sum_before
sum_before_other addr balance [] w absent = refl
sum_before_other addr balance ((b, _) ∷ m) w absent =
    ground (arith, sum_before_other addr balance m w, account_at-apply_balance addr balance w b)

supply-apply_balances :
    (m : Map Address ℤ) (s : State)
    → HasUniqueKeys m
    → IsWellFormed s
    → supply (apply_balances m s) +ℤ sum_before m s ≡ supply s +ℤ sum_after m
unfolding apply_balances sum_before sum_after
supply-apply_balances [] s u w = refl
supply-apply_balances ((addr, balance) ∷ m) s u w = grind (
  int_laws,
  supply-apply_balances m (apply_balance addr balance s) u.1
      (apply_balance-IsWellFormed addr balance w),
  sum_before_other addr balance m w u.0,
  supply-apply_balance addr balance w,
)

supply-apply_nonces :
    (m : Map Address ℕ) (s : State) → IsWellFormed s → supply (apply_nonces m s) ≡ supply s
unfolding apply_nonces
supply-apply_nonces [] s w = refl
supply-apply_nonces ((addr, nonce) ∷ m) s w =
    supply-apply_nonces m (apply_nonce addr nonce s) (apply_nonce-IsWellFormed addr nonce w)
    ∙ supply-apply_nonce addr nonce w

supply-apply_codes : (m : Map Address (List ℕ)) (s : State) → supply (apply_codes m s) ≡ supply s
unfolding apply_codes set_code supply
supply-apply_codes [] s = refl
supply-apply_codes ((addr, code) ∷ m) s = supply-apply_codes m (set_code addr code s)

supply-apply_slots :
    (addr : Address) (m : Map Hash Hash) (s : State) → supply (apply_slots addr m s) ≡ supply s
unfolding apply_slots set_storage supply
supply-apply_slots addr [] s = refl
supply-apply_slots addr ((key, value) ∷ m) s =
    supply-apply_slots addr m (set_storage addr key value s)

supply-apply_storage :
    (m : Map Address (Map Hash Hash)) (s : State) → supply (apply_storage m s) ≡ supply s
unfolding apply_storage
supply-apply_storage [] s = refl
supply-apply_storage ((addr, slots) ∷ m) s =
    supply-apply_storage m (apply_slots addr slots s) ∙ supply-apply_slots addr slots s

-- ApplyChanges moves the supply by what the pending balances change.
pub supply-apply_changes :
    (a : StateAdapter)
    → HasUniqueKeys a.balance_changes
    → IsWellFormed a.rollup_state
    → supply (apply_changes a).rollup_state +ℤ sum_before a.balance_changes a.rollup_state
      ≡ supply a.rollup_state +ℤ sum_after a.balance_changes
unfolding apply_changes
supply-apply_changes a u w =
    ap (λ t. t +ℤ sum_before a.balance_changes a.rollup_state)
      (supply-apply_storage a.storage_changes _
        ∙ supply-apply_codes a.code_changes _
        ∙ supply-apply_nonces a.nonce_changes _
            (apply_balances-IsWellFormed a.balance_changes a.rollup_state w))
    ∙ supply-apply_balances a.balance_changes a.rollup_state u w
