-- ===== src/Evm/Adapter/Apply.antt =====
-- One write of each loop of ApplyChanges, on the abstract view of the accounts.
use zkrollup_go.Base.{
  ℕ, ◌≡◌, ◌∙◌, ap, Option, none, some, if◌then◌else◌, nat_eqb, inl, inr, Option-cases,
}
use zkrollup_go.Base.Int.{ℤ, pos}
use zkrollup_go.State.{Address, Pointer, Account, State, get_account, store}
use zkrollup_go.State.Accounts.{
  IsWellFormed, account_at, account_at_known, account_at_missing, IsEntry-get_account,
  set_account-store, store-IsWellFormed, account_at-store, create_account,
  create_account-IsWellFormed, account_at-create,
}
use zkrollup_go.Evm.Adapter.{apply_balance, apply_nonce}

-- What a pending balance or nonce makes of an account that may be missing.
abbrev pub with_balance : Address → ℤ → Option Account → Account
with_balance addr balance none = record { address = addr; balance = some balance; nonce = 0 }
with_balance addr balance (some account) = record account { balance = some balance }

abbrev pub with_nonce : Address → ℕ → Option Account → Account
with_nonce addr nonce none = record { address = addr; balance = some (pos 0); nonce = nonce }
with_nonce addr nonce (some account) = record account { nonce = nonce }

module _ (s : State) (addr : Address) (balance : ℤ) where
  pub apply_balance_missing :
      get_account addr s ≡ none
      → apply_balance addr balance s
        ≡ create_account (record { address = addr; balance = some balance; nonce = 0 }) s
  unfolding apply_balance
  apply_balance_missing e = rw (e, apply_balance)

  pub apply_balance_known :
      IsWellFormed s
      → (p : Pointer) → get_account addr s ≡ some p
      → apply_balance addr balance s ≡ store p (record (s.heap p) { balance = some balance }) s
  unfolding apply_balance
  apply_balance_known w p e =
      rw (e, apply_balance) (set_account-store s p _ (rw (IsEntry-get_account addr p w e).1 e))

module _ {s : State} (addr : Address) (balance : ℤ) (w : IsWellFormed s) where
  pub apply_balance-IsWellFormed : IsWellFormed (apply_balance addr balance s)
  apply_balance-IsWellFormed = elim (Option-cases (get_account addr s)) [
    | inl e ↦ rw (apply_balance_missing s addr balance e) (create_account-IsWellFormed _ w tt)
    | inr (p, e) ↦
        rw (apply_balance_known s addr balance w p e)
          (store-IsWellFormed p _ w (rw (IsEntry-get_account addr p w e).1 e) tt)
  ]

  pub account_at-apply_balance :
      (b : Address)
      → account_at (apply_balance addr balance s) b ≡ (
          if nat_eqb addr b
          then some (with_balance addr balance (account_at s addr))
          else account_at s b)
  account_at-apply_balance b = elim (Option-cases (get_account addr s)) [
    | inl e ↦
        rw (apply_balance_missing s addr balance e, account_at_missing s addr e)
          (account_at-create _ w b)
    | inr (p, e) ↦
        rw (apply_balance_known s addr balance w p e, account_at_known s addr p e)
          (account_at-store p _ w (rw (IsEntry-get_account addr p w e).1 e) b
            ∙ ap
                (λ a.
                  if nat_eqb a b
                  then some (record (s.heap p) { balance = some balance })
                  else account_at s b)
                (IsEntry-get_account addr p w e).1)
  ]

module _ (s : State) (addr : Address) (nonce : ℕ) where
  pub apply_nonce_missing :
      get_account addr s ≡ none
      → apply_nonce addr nonce s
        ≡ create_account (record { address = addr; balance = some (pos 0); nonce = nonce }) s
  unfolding apply_nonce
  apply_nonce_missing e = rw (e, apply_nonce)

  pub apply_nonce_known :
      IsWellFormed s
      → (p : Pointer) → get_account addr s ≡ some p
      → apply_nonce addr nonce s ≡ store p (record (s.heap p) { nonce = nonce }) s
  unfolding apply_nonce
  apply_nonce_known w p e =
      rw (e, apply_nonce) (set_account-store s p _ (rw (IsEntry-get_account addr p w e).1 e))

module _ {s : State} (addr : Address) (nonce : ℕ) (w : IsWellFormed s) where
  pub apply_nonce-IsWellFormed : IsWellFormed (apply_nonce addr nonce s)
  apply_nonce-IsWellFormed = elim (Option-cases (get_account addr s)) [
    | inl e ↦ rw (apply_nonce_missing s addr nonce e) (create_account-IsWellFormed _ w tt)
    | inr (p, e) ↦ rw (apply_nonce_known s addr nonce w p e) (
        store-IsWellFormed p _ w (rw (IsEntry-get_account addr p w e).1 e)
          (IsEntry-get_account addr p w e).2)
  ]

  pub account_at-apply_nonce :
      (b : Address)
      → account_at (apply_nonce addr nonce s) b ≡ (
          if nat_eqb addr b
          then some (with_nonce addr nonce (account_at s addr))
          else account_at s b)
  account_at-apply_nonce b = elim (Option-cases (get_account addr s)) [
    | inl e ↦
        rw (apply_nonce_missing s addr nonce e, account_at_missing s addr e)
          (account_at-create _ w b)
    | inr (p, e) ↦
        rw (apply_nonce_known s addr nonce w p e, account_at_known s addr p e)
          (account_at-store p _ w (rw (IsEntry-get_account addr p w e).1 e) b
            ∙ ap
                (λ a.
                  if nat_eqb a b
                  then some (record (s.heap p) { nonce = nonce })
                  else account_at s b)
                (IsEntry-get_account addr p w e).1)
  ]
