-- ===== src/Ledger/Steps.antt =====
-- The parts of the three ways to process a transaction, each as one write of the abstract view.
use zkrollup_go.Base.{
  ◌≡◌, some, true, false, inl, inr, Option-cases, arith, Bool-cases, nat_eqb, nat_eqb_iff,
  if◌then◌else◌,
}
use zkrollup_go.Base.Int.{ℤ, pos, ◌+ℤ◌, ◌-ℤ◌, ltb_ℤ, int_laws, zero_or_self, zero_add_ℤ}
use zkrollup_go.Outcome.{ok, err, insufficient_balance}
use zkrollup_go.State.{Address, Pointer, State, get_account}
use zkrollup_go.State.Accounts.{
  IsWellFormed, account_at, account_at_known, account_at_missing, IsEntry-get_account,
}
use zkrollup_go.Evm.Adapter.{apply_balance}
use zkrollup_go.State.Supply.{funds_of}
use zkrollup_go.Ledger.{check_balance, debit, credit, credit_to}

module _ (p : Pointer) (value balance : ℤ) (s : State) (e : (s.heap p).balance ≡ some balance) where
  pub check_balance_ok : ltb_ℤ balance value ≡ false → check_balance p (some value) s ≡ ok value s
  unfolding check_balance
  check_balance_ok enough = ground (arith, zero_or_self value)

  pub check_balance_short :
      ltb_ℤ balance value ≡ true → check_balance p (some value) s ≡ err insufficient_balance s
  unfolding check_balance
  check_balance_short short = ground arith

  pub debit_lem :
      (addr : Address)
      → get_account addr s ≡ some p
      → debit p value s ≡ ok tt (apply_balance addr (balance -ℤ value) s)
  unfolding debit apply_balance
  debit_lem addr known = ground arith

-- In a well-formed state the balance behind a known pointer is a number.
pub balance_known :
    {s : State} (addr : Address) (p : Pointer)
    → IsWellFormed s
    → get_account addr s ≡ some p
    → (balance : ℤ) × ((s.heap p).balance ≡ some balance)
balance_known {s} addr p w known = elim (Option-cases (s.heap p).balance) [
  | inl nil ↦ absurd (ground (arith, IsEntry-get_account addr p w known))
  | inr found ↦ found
]

pub credit_lem :
    {s : State} (to : Address) (value : ℤ)
    → IsWellFormed s
    → credit to value s ≡ ok tt (apply_balance to (funds_of (account_at s to) +ℤ value) s)
unfolding credit apply_balance
credit_lem {s} to value w = elim (Option-cases (get_account to s)) [
  | inl e ↦ rw (e, account_at_missing s to e, apply_balance, credit, credit_to, zero_add_ℤ)
  | inr (q, e) ↦
      let (balance, there) = balance_known to q w e in ground (arith, account_at_known s to q e)
]

-- The arithmetic of two writes, the second of which may be at the address of the first.
pub settle :
    (from to b : Address) (at_from at_to at_b balance value : ℤ)
    → at_from ≡ balance
    → (from ≡ b → at_from ≡ at_b)
    → (to ≡ b → at_to ≡ at_b)
    → (if nat_eqb to b
          then (if nat_eqb from to then balance -ℤ value else at_to) +ℤ value
          else if nat_eqb from b
          then balance -ℤ value
          else at_b)
        +ℤ (if nat_eqb from b then value else pos 0)
      ≡ at_b +ℤ (if nat_eqb to b then value else pos 0)
settle from to b at_from at_to at_b balance value held same_from same_to =
    elim (Bool-cases (nat_eqb to b)) [
      | inl e ↦ elim (Bool-cases (nat_eqb from b)) [
        | inl f ↦
            let same : nat_eqb from to ≡ true = ground arith in
            let there : at_from ≡ at_b = same_from ((nat_eqb_iff from b).0 f) in
            rw (e, f, same) (grind int_laws)
        | inr f ↦
            let other : nat_eqb from to ≡ false = ground arith in
            let there : at_to ≡ at_b = same_to ((nat_eqb_iff to b).0 e) in
            rw (e, f, other) (grind int_laws)
      ]
      | inr e ↦ elim (Bool-cases (nat_eqb from b)) [
        | inl f ↦
            let there : at_from ≡ at_b = same_from ((nat_eqb_iff from b).0 f) in
            rw (e, f) (grind int_laws)
        | inr f ↦ rw (e, f)
      ]
    ]
