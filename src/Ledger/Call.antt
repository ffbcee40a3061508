-- ===== src/Ledger/Call.antt =====
-- processContractCall never succeeds: the adapter is new, so no code is pending, and its GetCode
-- does not ask the rollup state.
use zkrollup_go.Base.{◌≡◌, refl, ◌∙◌, some, inl, inr, Bool-cases, arith, if◌then◌else◌}
use zkrollup_go.Base.Int.{ℤ, ltb_ℤ}
use zkrollup_go.Outcome.{err, insufficient_balance, contract_not_found, bind_ok, bind_err}
use zkrollup_go.State.{Pointer, Transaction, State, get_account}
use zkrollup_go.State.Accounts.{IsWellFormed, account_at, account_at_known}
use zkrollup_go.State.Supply.{funds_of}
use zkrollup_go.Evm.{execute_contract}
use zkrollup_go.Evm.Adapter.{get_code, new_state_adapter}
use zkrollup_go.Ledger.{process_contract_call, check_balance, on_adapter}
use zkrollup_go.Ledger.Steps.{check_balance_ok, check_balance_short, balance_known}

module _ {s : State} (tx : Transaction) (p : Pointer) (value : ℤ) (w : IsWellFormed s)
    (known : get_account tx.from s ≡ some p) (amount : tx.amount ≡ some value) where
  run_call :
      on_adapter (execute_contract tx.from tx.to (some value) tx.gas tx.payload) s
      ≡ err contract_not_found s
  unfolding on_adapter execute_contract get_code new_state_adapter
  run_call = refl

  pub process_contract_call_fails :
      process_contract_call tx p s
      ≡ err
          (if ltb_ℤ (funds_of (account_at s tx.from)) value
            then insufficient_balance
            else contract_not_found)
          s
  unfolding process_contract_call
  process_contract_call_fails =
      let (balance, held) = balance_known tx.from p w known in
      let there : funds_of (account_at s tx.from) ≡ balance =
        ground (arith, account_at_known s tx.from p known) in
      elim (Bool-cases (ltb_ℤ balance value)) [
        | inl short ↦
            rw (there, short)
              (bind_err s (check_balance p tx.amount) _ insufficient_balance s
                (rw amount (check_balance_short p value balance s held short)))
        | inr enough ↦
            rw (there, enough)
              (bind_ok s (check_balance p tx.amount) _ value s
                  (rw amount (check_balance_ok p value balance s held enough))
                ∙ bind_err s
                    (on_adapter (execute_contract tx.from tx.to (some value) tx.gas tx.payload)) _
                    contract_not_found s run_call)
      ]
