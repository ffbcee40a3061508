-- ===== src/Sequencer/Admission.antt =====
-- AddTransaction: the accounts of the sender and of the recipient, as it looks them up.
use zkrollup_go.Base.{
  ◌≡◌, refl, ◌∙◌, ap, sym, inl, inr, Option, none, some, nat_eqb, nat_eqb_iff, if◌then◌else◌,
  Bool-cases, Option-cases, arith,
}
use zkrollup_go.Base.Int.{ℤ, pos, is_zero_ℤ}
use zkrollup_go.Outcome.{ok}
use zkrollup_go.State.{Address, Pointer, Account, State, get_account, store, set_account}
use zkrollup_go.State.Accounts.{
  IsWellFormed, account_at, account_at_known, account_at_missing, IsEntry-get_account,
  create_account, get_account-create, set_account-store,
}
use zkrollup_go.State.Supply.{funds_of, nonce_at}
use zkrollup_go.Evm.Adapter.{apply_balance}
use zkrollup_go.Evm.Adapter.Apply.{
  apply_balance_missing, apply_balance_known, apply_balance-IsWellFormed, account_at-apply_balance,
}
use zkrollup_go.Sequencer.{is_broke, fund_found, fund_sender, open_recipient, is_unopened}

-- What a sender can spend: the test balance of 1000 where there is nothing.
abbrev pub purse : Option Account → ℤ
purse account = if is_zero_ℤ (funds_of account) then pos 1000 else funds_of account

-- The state after the sender's account was looked up, as a write of the abstract view.
abbrev pub funded : Address → State → State
funded from s =
    if is_zero_ℤ (funds_of (account_at s from)) then apply_balance from (pos 1000) s else s

abbrev pub opened : Address → State → State
opened to s = elim (get_account to s) [ none ↦ apply_balance to (pos 0) s | some _ ↦ s ]

get_account-store :
    (a : Address) (p : Pointer) (account : Account) (s : State)
    → get_account a (store p account s) ≡ get_account a s
unfolding get_account store
get_account-store a p account s = refl

module _ {s : State} (a : Address) (w : IsWellFormed s) where
  abbrev faucet : Account
  faucet = record { address = a; balance = some (pos 1000); nonce = 0 }

  funded_missing : get_account a s ≡ none → funded a s ≡ create_account faucet s
  funded_missing e = rw (account_at_missing s a e) (apply_balance_missing s a (pos 1000) e)

  funded_known :
      (p : Pointer)
      → get_account a s ≡ some p
      → funded a s ≡ (
          if is_broke (s.heap p).balance
          then store p (record (s.heap p) { balance = some (pos 1000) }) s
          else s)
  funded_known p e = elim (Option-cases (s.heap p).balance) [
    | inl nil ↦ rw (account_at_known s a p e, nil) (apply_balance_known s a (pos 1000) w p e)
    | inr (balance, b) ↦ elim (Bool-cases (is_zero_ℤ balance)) [
      | inl zero ↦ rw (account_at_known s a p e, b, zero) (apply_balance_known s a (pos 1000) w p e)
      | inr more ↦ rw (account_at_known s a p e, b, more)
    ]
  ]

  set_same :
      (p : Pointer) (balance : ℤ)
      → get_account a s ≡ some p
      → set_account p (store p (record (s.heap p) { balance = some balance }) s)
        ≡ store p (record (s.heap p) { balance = some balance }) s
  set_same p balance e = set_account-store s p _ (rw (IsEntry-get_account a p w e).1 e)

  pub fund_sender_lem :
      (p : Pointer) × (fund_sender a s ≡ ok p (funded a s)) × (get_account a (funded a s) ≡ some p)
  unfolding fund_sender
  fund_sender_lem = elim (Option-cases (get_account a s)) [
    | inl missing ↦ (
      s.next,
      rw (missing, fund_found) (ap (ok s.next) (sym (funded_missing missing))),
      rw (funded_missing missing) (get_account-create faucet w a ∙ ground arith),
    )
    | inr (p, known) ↦ (
      p,
      rw (known, fund_found, set_same p (pos 1000) known) (ap (ok p) (sym (funded_known p known))),
      rw (funded_known p known) (elim (Bool-cases (is_broke (s.heap p).balance)) [
        | inl broke ↦ rw (broke) (get_account-store a p _ s ∙ known)
        | inr rich ↦ rw (rich) known
      ]),
    )
  ]

opened_missing :
    (to : Address) (s : State) → get_account to s ≡ none → opened to s ≡ apply_balance to (pos 0) s
opened_missing to s e = rw (e, opened)

opened_known :
    (to : Address) (p : Pointer) (s : State) → get_account to s ≡ some p → opened to s ≡ s
opened_known to p s e = rw (e, opened)

module _ {s : State} (to : Address) (w : IsWellFormed s) where
  pub open_recipient_lem : open_recipient to s ≡ ok tt (opened to s)
  unfolding open_recipient
  open_recipient_lem = elim (Option-cases (get_account to s)) [
    | inl e ↦
        rw (opened_missing to s e, e) (ap (ok tt) (sym (apply_balance_missing s to (pos 0) e)))
    | inr (p, known) ↦ elim (Option-cases (s.heap p).balance) [
      | inl nil ↦ absurd (ground (arith, IsEntry-get_account to p w known))
      | inr (balance, b) ↦ rw (opened_known to p s known, known, is_unopened, b)
    ]
  ]

  pub opened-IsWellFormed : IsWellFormed (opened to s)
  opened-IsWellFormed = elim (Option-cases (get_account to s)) [
    | inl e ↦ rw (opened_missing to s e) (apply_balance-IsWellFormed to (pos 0) w)
    | inr (p, e) ↦ rw (opened_known to p s e) w
  ]

  pub get_account-opened :
      (a : Address) (p : Pointer) → get_account a s ≡ some p → get_account a (opened to s) ≡ some p
  get_account-opened a p known = elim (Option-cases (get_account to s)) [
    | inl e ↦
        rw (opened_missing to s e, apply_balance_missing s to (pos 0) e)
          (get_account-create (record { address = to; balance = some (pos 0); nonce = 0 }) w a
            ∙ ground (arith, nat_eqb_iff to a))
    | inr (q, e) ↦ rw (opened_known to q s e) known
  ]

  view-opened :
      (b : Address)
      → (funds_of (account_at (opened to s) b) ≡ funds_of (account_at s b))
        × (nonce_at (account_at (opened to s) b) ≡ nonce_at (account_at s b))
  view-opened b = elim (Option-cases (get_account to s)) [
    | inl e ↦ rw (opened_missing to s e) (
        ground (
          arith,
          account_at-apply_balance to (pos 0) w b,
          account_at_missing s to e,
          nat_eqb_iff to b,
        ))
    | inr (q, e) ↦ rw (opened_known to q s e) (refl, refl)
  ]

-- What a look at the sender and the recipient has done, whatever came of it: the sender's balance is
-- what it can spend, and no other balance and no nonce has changed.
abbrev pub Funds : Address → State → State → Type 0
Funds from s s' =
    IsWellFormed s'
    × ((b : Address)
        → (funds_of (account_at s' b)
            ≡ (if nat_eqb from b then purse (account_at s from) else funds_of (account_at s b)))
          × (nonce_at (account_at s' b) ≡ nonce_at (account_at s b)))

module _ {s : State} (from to : Address) (w : IsWellFormed s) where
  pub funded-Funds : Funds from s (funded from s)
  funded-Funds = elim (Bool-cases (is_zero_ℤ (funds_of (account_at s from)))) [
    | inl zero ↦ rw (zero) (
      apply_balance-IsWellFormed from (pos 1000) w,
      λ b. ground (arith, account_at-apply_balance from (pos 1000) w b, nat_eqb_iff from b),
    )
    | inr more ↦ rw (more) (w, λ b. (ground (arith, nat_eqb_iff from b), refl))
  ]

  pub looked_up-Funds : Funds from s (opened to (funded from s))
  looked_up-Funds =
      let (w', view) = funded-Funds in
      (
        opened-IsWellFormed to w',
        λ b. ((view-opened to w' b).0 ∙ (view b).0, (view-opened to w' b).1 ∙ (view b).1),
      )
