-- ===== src/Ledger/Transfer.antt =====
-- processTransferTransaction, on all of its branches.
use zkrollup_go.Base.{
  ◌≡◌, refl, ◌∙◌, ap, some, true, false, inl, inr, Bool-cases, arith, if◌then◌else◌, nat_eqb,
  nat_eqb_iff,
}
use zkrollup_go.Base.Int.{ℤ, pos, ◌+ℤ◌, ◌-ℤ◌, ltb_ℤ, int_laws}
use zkrollup_go.Outcome.{Outcome, ok, err, panic, insufficient_balance, bind_ok, bind_err}
use zkrollup_go.State.{Address, Pointer, Transaction, State, get_account}
use zkrollup_go.State.Accounts.{IsWellFormed, account_at, account_at_known}
use zkrollup_go.State.Supply.{funds_of, nonce_at, supply}
use zkrollup_go.Evm.Adapter.{apply_balance}
use zkrollup_go.Evm.Adapter.Apply.{apply_balance-IsWellFormed, account_at-apply_balance}
use zkrollup_go.Evm.Supply.{supply-apply_balance}
use zkrollup_go.Ledger.{process_transfer, check_balance, debit}
use zkrollup_go.Ledger.Steps.{
  check_balance_ok, check_balance_short, debit_lem, credit_lem, balance_known, settle,
}

-- The state after a transfer from a sender who holds `balance`.
moved : Address → Address → ℤ → ℤ → State → State
moved from to balance value s =
    let s' = apply_balance from (balance -ℤ value) s in
    apply_balance to (funds_of (account_at s' to) +ℤ value) s'

-- What a transfer of `value` that began at `s` has done, by how it ended.
abbrev pub Transfers : {A : Type 0} → Address → Address → ℤ → State → Outcome State A → Type 0
Transfers from to value s (ok _ s') =
    IsWellFormed s'
    × (supply s' ≡ supply s)
    × (ltb_ℤ (funds_of (account_at s from)) value ≡ false)
    × ((b : Address)
        → (funds_of (account_at s' b) +ℤ (if nat_eqb from b then value else pos 0)
            ≡ funds_of (account_at s b) +ℤ (if nat_eqb to b then value else pos 0))
          × (nonce_at (account_at s' b) ≡ nonce_at (account_at s b)))
Transfers from to value s (err e s') =
    (s' ≡ s) × (e ≡ insufficient_balance) × (ltb_ℤ (funds_of (account_at s from)) value ≡ true)
Transfers from to value s panic = ⊥

module _ {s : State} (from to : Address) (value : ℤ) (w : IsWellFormed s) where
  supply-apply :
      supply (apply_balance to (funds_of (account_at s to) +ℤ value) s) ≡ supply s +ℤ value
  supply-apply = grind (int_laws, supply-apply_balance to (funds_of (account_at s to) +ℤ value) w)

  supply-debit :
      supply (apply_balance from (funds_of (account_at s from) -ℤ value) s) +ℤ value ≡ supply s
  supply-debit =
      grind (int_laws, supply-apply_balance from (funds_of (account_at s from) -ℤ value) w)

  funds-apply :
      (balance : ℤ) (b : Address)
      → funds_of (account_at (apply_balance from balance s) b)
        ≡ (if nat_eqb from b then balance else funds_of (account_at s b))
  funds-apply balance b = ground (arith, account_at-apply_balance from balance w b)

  nonce-apply :
      (balance : ℤ) (b : Address)
      → nonce_at (account_at (apply_balance from balance s) b) ≡ nonce_at (account_at s b)
  nonce-apply balance b =
      ground (arith, account_at-apply_balance from balance w b, nat_eqb_iff from b)

module _ {s : State} (from to : Address) (balance value : ℤ) (w : IsWellFormed s)
    (held : funds_of (account_at s from) ≡ balance) where
  moved-IsWellFormed : IsWellFormed (moved from to balance value s)
  unfolding moved
  moved-IsWellFormed =
      apply_balance-IsWellFormed to _ (apply_balance-IsWellFormed from (balance -ℤ value) w)

  supply-moved : supply (moved from to balance value s) ≡ supply s
  unfolding moved
  supply-moved =
      supply-apply from to value (apply_balance-IsWellFormed from (balance -ℤ value) w)
      ∙ rw (← held) (supply-debit from to value w)

  funds-moved :
      (b : Address)
      → funds_of (account_at (moved from to balance value s) b)
          +ℤ (if nat_eqb from b then value else pos 0)
        ≡ funds_of (account_at s b) +ℤ (if nat_eqb to b then value else pos 0)
  unfolding moved
  funds-moved b =
      let s' = apply_balance from (balance -ℤ value) s in
      let w' : IsWellFormed s' = apply_balance-IsWellFormed from (balance -ℤ value) w in
      rw
        (
          funds-apply to to value w' (funds_of (account_at s' to) +ℤ value) b,
          funds-apply from to value w (balance -ℤ value) b,
          funds-apply from to value w (balance -ℤ value) to,
        )
        (settle from to b (funds_of (account_at s from)) (funds_of (account_at s to))
          (funds_of (account_at s b)) balance value held
          (λ e. ap (λ a. funds_of (account_at s a)) e) (λ e. ap (λ a. funds_of (account_at s a)) e))

  nonce-moved :
      (b : Address)
      → nonce_at (account_at (moved from to balance value s) b) ≡ nonce_at (account_at s b)
  unfolding moved
  nonce-moved b =
      nonce-apply to to value (apply_balance-IsWellFormed from (balance -ℤ value) w) _ b
      ∙ nonce-apply from to value w (balance -ℤ value) b

process_transfer_ok :
    {s : State} (tx : Transaction) (p : Pointer) (value balance : ℤ)
    → IsWellFormed s
    → get_account tx.from s ≡ some p
    → tx.amount ≡ some value
    → (s.heap p).balance ≡ some balance
    → ltb_ℤ balance value ≡ false
    → process_transfer tx p s ≡ ok tt (moved tx.from tx.to balance value s)
unfolding process_transfer moved
process_transfer_ok {s} tx p value balance w known amount held enough =
    bind_ok s (check_balance p tx.amount) _ value s
      (rw amount (check_balance_ok p value balance s held enough))
    ∙ bind_ok s (debit p value) _ tt _ (debit_lem p value balance s held tx.from known)
    ∙ credit_lem tx.to value (apply_balance-IsWellFormed tx.from (balance -ℤ value) w)

process_transfer_short :
    {s : State} (tx : Transaction) (p : Pointer) (value balance : ℤ)
    → tx.amount ≡ some value
    → (s.heap p).balance ≡ some balance
    → ltb_ℤ balance value ≡ true
    → process_transfer tx p s ≡ err insufficient_balance s
unfolding process_transfer
process_transfer_short {s} tx p value balance amount held short =
    bind_err s (check_balance p tx.amount) _ insufficient_balance s
      (rw amount (check_balance_short p value balance s held short))

-- From a well-formed state, for a sender that is found and an amount that is not nil, a transfer
-- does not panic. If the sender holds the amount, the state stays well formed, the supply is kept,
-- the sender's funds fall and the recipient's rise by the amount (both, for a transfer to
-- oneself), no other account's funds change, and no nonce changes. If not, the result is the error
-- and the state is unchanged.
pub process_transfer-Transfers :
    {s : State} (tx : Transaction) (p : Pointer) (value : ℤ)
    → IsWellFormed s
    → get_account tx.from s ≡ some p
    → tx.amount ≡ some value
    → Transfers tx.from tx.to value s (process_transfer tx p s)
process_transfer-Transfers {s} tx p value w known amount =
    let (balance, held) = balance_known tx.from p w known in
    let there : funds_of (account_at s tx.from) ≡ balance =
      ground (arith, account_at_known s tx.from p known) in
    elim (Bool-cases (ltb_ℤ balance value)) [
      | inl short ↦
          rw (process_transfer_short {s = s} tx p value balance amount held short)
            (refl, refl, rw there short)
      | inr enough ↦ rw (process_transfer_ok tx p value balance w known amount held enough) (
        moved-IsWellFormed tx.from tx.to balance value w there,
        supply-moved tx.from tx.to balance value w there,
        rw there enough,
        λ b. (
          funds-moved tx.from tx.to balance value w there b,
          nonce-moved tx.from tx.to balance value w there b,
        ),
      )
    ]
