-- ===== src/Ledger/Charge.antt =====
-- The charge that follows a run of the virtual machine, as one write of the abstract view.
use zkrollup_go.Base.{
  ◌+◌, ◌≡◌, ◌∙◌, ap, some, Bool, true, false, arith, if◌then◌else◌, nat_eqb, nat_eq,
}
use zkrollup_go.Base.Int.{ℤ, pos, ◌+ℤ◌, ◌-ℤ◌, int_laws}
use zkrollup_go.Outcome.{ok, bind_ok, or_panic}
use zkrollup_go.State.{Address, Pointer, Account, State, u64, get_account, store, set_account}
use zkrollup_go.State.Accounts.{
  IsWellFormed, account_at, account_at-store, store-IsWellFormed, set_account-store,
  IsEntry-get_account,
}
use zkrollup_go.State.Supply.{funds, supply, supply-store}
use zkrollup_go.Evm.Adapter.{
  new_state_adapter, apply_changes, apply_balances, apply_nonces, apply_codes, apply_storage,
}
use zkrollup_go.Ledger.{charge}
use zkrollup_go.Ledger.Steps.{balance_known}

-- The account after the charge.
abbrev pub charged_account : Account → ℤ → Account
charged_account account value = record account {
  balance = some (funds account -ℤ value);
  nonce = u64 (account.nonce + 1);
}

module _ (t : State) (addr : Address) (p : Pointer) (value : ℤ) (w : IsWellFormed t)
    (known : get_account addr t ≡ some p) where
  abbrev pub charged : State
  charged = store p (charged_account (t.heap p) value) t

  here : get_account (t.heap p).address t ≡ some p
  here = rw (IsEntry-get_account addr p w known).1 known

  charge_held :
      (balance : ℤ)
      → (t.heap p).balance ≡ some balance
      → charge p value (new_state_adapter t) t
        ≡ ok tt (
            set_account p (
              store p
                (record (t.heap p) {
                  balance = some (balance -ℤ value);
                  nonce = u64 ((t.heap p).nonce + 1);
                })
                t))
  unfolding charge apply_changes apply_balances apply_nonces apply_codes apply_storage
      new_state_adapter
  charge_held balance held =
      bind_ok t (λ s. or_panic (s.heap p).balance s) _ balance t (rw (held, or_panic))

  pub charge_lem : charge p value (new_state_adapter t) t ≡ ok tt charged
  charge_lem =
      let (balance, held) = balance_known addr p w known in
      charge_held balance held
      ∙ ap (ok tt) (
          set_account-store t p _ here
          ∙ ap
              (λ z.
                store p
                  (record (t.heap p) {
                    balance = some (z -ℤ value);
                    nonce = u64 ((t.heap p).nonce + 1);
                  })
                  t)
              (ground arith))

  pub charged-IsWellFormed : IsWellFormed charged
  charged-IsWellFormed = store-IsWellFormed p (charged_account (t.heap p) value) w here tt

  pub supply-charged : supply charged +ℤ value ≡ supply t
  supply-charged = grind (int_laws, supply-store p (charged_account (t.heap p) value) w here)

  pub account_at-charged :
      (b : Address)
      → account_at charged b
        ≡ (if nat_eqb addr b then some (charged_account (t.heap p) value) else account_at t b)
  account_at-charged b =
      account_at-store p (charged_account (t.heap p) value) w here b
      ∙ ap (λ a. if nat_eqb a b then some (charged_account (t.heap p) value) else account_at t b)
          (IsEntry-get_account addr p w known).1

pub charge_again :
    (b : Bool) (left value right : ℤ)
    → left +ℤ (if b then value else pos 0) ≡ right
    → (if b then left -ℤ value else left) +ℤ (if b then value +ℤ value else pos 0) ≡ right
charge_again true left value right h = rw (← h) (grind int_laws)
charge_again false left value right h = h
