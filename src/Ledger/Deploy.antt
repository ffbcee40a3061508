-- ===== src/Ledger/Deploy.antt =====
-- processContractDeployment, on all of its branches: the sender pays the value twice, since the
-- charge after the virtual machine reads the balance through a pointer to the account that
-- ApplyChanges has already debited.
use zkrollup_go.Base.{
  ℕ, ◌+◌, ◌-◌, ◌/◌, ◌≡◌, refl, ◌∙◌, ap, List, some, true, false, inl, inr, Bool-cases, arith,
  if◌then◌else◌, nat_eqb, nat_eqb_iff, lookup-insert, nat_eq, [], ◌∷◌,
}
use zkrollup_go.Base.Int.{ℤ, pos, ◌+ℤ◌, ◌-ℤ◌, ltb_ℤ}
use zkrollup_go.Outcome.{Outcome, ok, err, panic, insufficient_balance, bind_ok, bind_err}
use zkrollup_go.State.{Address, Pointer, Transaction, State, u64, get_account}
use zkrollup_go.State.Accounts.{IsWellFormed, account_at, account_at_known}
use zkrollup_go.State.Supply.{funds_of, nonce_at, supply}
use zkrollup_go.Evm.{deploy_contract}
use zkrollup_go.Evm.Deploy.{
  pending_deploy, pending_unique, supply_deploy, held_by, new_contract, deploy_contract_ok,
}
use zkrollup_go.Evm.Adapter.{apply_changes}
use zkrollup_go.Evm.Adapter.Views.{apply_changes-IsWellFormed, account_at-apply_changes}
use zkrollup_go.Evm.Adapter.Pointers.{get_account-apply_changes}
use zkrollup_go.Ledger.{process_contract_deployment, check_balance, on_adapter}
use zkrollup_go.Ledger.Charge.{
  charged, charge_lem, charged-IsWellFormed, supply-charged, account_at-charged, charge_again,
}
use zkrollup_go.Ledger.Steps.{check_balance_ok, check_balance_short, balance_known, settle}

-- What a deployment of `value` at `contract` that began at `s` has done, by how it ended.
abbrev pub Deploys : {A : Type 0} → Address → Address → ℤ → State → Outcome State A → Type 0
Deploys from contract value s (ok _ s') =
    IsWellFormed s'
    × (supply s' +ℤ value ≡ supply s)
    × (ltb_ℤ (funds_of (account_at s from)) value ≡ false)
    × (nonce_at (account_at s' from) ≡ u64 (u64 (nonce_at (account_at s from) + 1) + 1))
    × ((b : Address)
        → funds_of (account_at s' b) +ℤ (if nat_eqb from b then value +ℤ value else pos 0)
          ≡ funds_of (account_at s b) +ℤ (if nat_eqb contract b then value else pos 0))
Deploys from contract value s (err e s') =
    (s' ≡ s) × (e ≡ insufficient_balance) × (ltb_ℤ (funds_of (account_at s from)) value ≡ true)
Deploys from contract value s panic = ⊥

module _ {s : State} (from contract : Address) (value : ℤ) (code : List ℕ) (p : Pointer)
    (w : IsWellFormed s) (known : get_account from s ≡ some p) where
  abbrev deployed : State
  deployed = (apply_changes (pending_deploy s from contract value code)).rollup_state

  deployed-IsWellFormed : IsWellFormed deployed
  deployed-IsWellFormed = apply_changes-IsWellFormed (pending_deploy s from contract value code) w

  deployed_known : get_account from deployed ≡ some p
  deployed_known =
      get_account-apply_changes from p (pending_deploy s from contract value code) w known

  funds_deployed_view :
      (b : Address)
      → funds_of (account_at deployed b) ≡ (
          if nat_eqb contract b
          then held_by s from contract value +ℤ value
          else if nat_eqb from b
          then funds_of (account_at s from) -ℤ value
          else funds_of (account_at s b))
  funds_deployed_view b = ground (
    arith,
    account_at-apply_changes (pending_deploy s from contract value code) b
        (pending_unique s from contract value code) (refl, tt) w,
    lookup-insert contract b (held_by s from contract value +ℤ value)
        ((from, funds_of (account_at s from) -ℤ value) ∷ []),
  )

  funds-deployed :
      (b : Address)
      → funds_of (account_at deployed b) +ℤ (if nat_eqb from b then value else pos 0)
        ≡ funds_of (account_at s b) +ℤ (if nat_eqb contract b then value else pos 0)
  funds-deployed b = rw (funds_deployed_view b) (
      settle from contract b (funds_of (account_at s from)) (funds_of (account_at s contract))
        (funds_of (account_at s b)) (funds_of (account_at s from)) value refl
        (λ e. ap (λ a. funds_of (account_at s a)) e) (λ e. ap (λ a. funds_of (account_at s a)) e))

  nonce-deployed : nonce_at (account_at deployed from) ≡ u64 (nonce_at (account_at s from) + 1)
  nonce-deployed = ground (
    arith,
    account_at-apply_changes (pending_deploy s from contract value code) from
        (pending_unique s from contract value code) (refl, tt) w,
  )

module _ {s : State} (create_address : Address → ℕ → Address) (tx : Transaction) (p : Pointer)
    (value balance : ℤ) (w : IsWellFormed s) (known : get_account tx.from s ≡ some p)
    (amount : tx.amount ≡ some value) (held : (s.heap p).balance ≡ some balance) where
  abbrev at_new : Address
  at_new = new_contract create_address tx.from value tx.gas tx.payload w

  abbrev after_vm : State
  after_vm = deployed tx.from at_new value tx.payload p w known

  funds_held : funds_of (account_at s tx.from) ≡ balance
  funds_held = ground (arith, account_at_known s tx.from p known)

  run_deploy :
      ltb_ℤ balance value ≡ false
      → on_adapter (deploy_contract create_address tx.from (some value) tx.gas tx.payload) s
        ≡ ok
            (
              (at_new, tx.gas - tx.gas / 2),
              apply_changes (pending_deploy s tx.from at_new value tx.payload),
            )
            after_vm
  unfolding on_adapter
  run_deploy enough = rw (
    deploy_contract_ok create_address tx.from value tx.gas tx.payload w (rw funds_held enough),
    on_adapter,
  )

  process_deployment_ok :
      ltb_ℤ balance value ≡ false
      → process_contract_deployment create_address tx p s
        ≡ ok tt (
            charged after_vm tx.from p value
              (deployed-IsWellFormed tx.from at_new value tx.payload p w known)
              (deployed_known tx.from at_new value tx.payload p w known))
  unfolding process_contract_deployment apply_changes
  process_deployment_ok enough =
      bind_ok s (check_balance p tx.amount) _ value s
        (rw amount (check_balance_ok p value balance s held enough))
      ∙ bind_ok s
          (on_adapter (deploy_contract create_address tx.from (some value) tx.gas tx.payload)) _
          (
            (at_new, tx.gas - tx.gas / 2),
            apply_changes (pending_deploy s tx.from at_new value tx.payload),
          )
          after_vm (run_deploy enough)
      ∙ charge_lem after_vm tx.from p value
          (deployed-IsWellFormed tx.from at_new value tx.payload p w known)
          (deployed_known tx.from at_new value tx.payload p w known)

  process_deployment_short :
      ltb_ℤ balance value ≡ true
      → process_contract_deployment create_address tx p s ≡ err insufficient_balance s
  unfolding process_contract_deployment
  process_deployment_short short =
      bind_err s (check_balance p tx.amount) _ insufficient_balance s
        (rw amount (check_balance_short p value balance s held short))

  abbrev after_charge : State
  after_charge =
      charged after_vm tx.from p value
        (deployed-IsWellFormed tx.from at_new value tx.payload p w known)
        (deployed_known tx.from at_new value tx.payload p w known)

  after_vm_IsWellFormed : IsWellFormed after_vm
  after_vm_IsWellFormed = deployed-IsWellFormed tx.from at_new value tx.payload p w known

  after_vm_known : get_account tx.from after_vm ≡ some p
  after_vm_known = deployed_known tx.from at_new value tx.payload p w known

  funds_after :
      (b : Address)
      → funds_of (account_at after_charge b) ≡ (
          if nat_eqb tx.from b
          then funds_of (account_at after_vm b) -ℤ value
          else funds_of (account_at after_vm b))
  funds_after b = ground (
    arith,
    account_at-charged after_vm tx.from p value after_vm_IsWellFormed after_vm_known b,
    account_at_known after_vm tx.from p after_vm_known,
    nat_eqb_iff tx.from b,
  )

  funds_twice :
      (b : Address)
      → funds_of (account_at after_charge b)
          +ℤ (if nat_eqb tx.from b then value +ℤ value else pos 0)
        ≡ funds_of (account_at s b) +ℤ (if nat_eqb at_new b then value else pos 0)
  funds_twice b = rw (funds_after b) (
      charge_again (nat_eqb tx.from b) (funds_of (account_at after_vm b)) value _
        (funds-deployed tx.from at_new value tx.payload p w known b))

  nonce_after :
      nonce_at (account_at after_charge tx.from)
      ≡ u64 (u64 (nonce_at (account_at s tx.from) + 1) + 1)
  nonce_after = ground (
    arith,
    account_at-charged after_vm tx.from p value after_vm_IsWellFormed after_vm_known tx.from,
    account_at_known after_vm tx.from p after_vm_known,
    nonce-deployed tx.from at_new value tx.payload p w known,
    nat_eqb_iff tx.from tx.from,
  )

  deployed-Deploys :
      ltb_ℤ balance value ≡ false → Deploys {A = Unit} tx.from at_new value s (ok tt after_charge)
  deployed-Deploys enough = (
    charged-IsWellFormed after_vm tx.from p value after_vm_IsWellFormed after_vm_known,
    supply-charged after_vm tx.from p value after_vm_IsWellFormed after_vm_known
        ∙ supply_deploy s tx.from at_new value tx.payload w,
    rw funds_held enough,
    nonce_after,
    funds_twice,
  )

-- From a well-formed state, for a sender that is found and an amount that is not nil, a deployment
-- does not panic. If the sender holds the amount, the state stays well formed, the new contract's
-- funds rise by the amount, the sender's fall by twice the amount (what the contract gains at the
-- sender's own address counted against it), no other account's funds change, the sender's nonce
-- grows by two, and the supply shrinks by the amount. If not, the result is the error and the
-- state is unchanged.
pub process_contract_deployment-Deploys :
    {s : State} (create_address : Address → ℕ → Address) (tx : Transaction) (p : Pointer)
    (value : ℤ)
    → IsWellFormed s
    → get_account tx.from s ≡ some p
    → tx.amount ≡ some value
    → Deploys tx.from
        (create_address tx.from (nonce_at (account_at s tx.from)))
        value
        s
        (process_contract_deployment create_address tx p s)
process_contract_deployment-Deploys {s} create_address tx p value w known amount =
    let (balance, held) = balance_known tx.from p w known in
    elim (Bool-cases (ltb_ℤ balance value)) [
      | inl short ↦
          rw (process_deployment_short create_address tx p value balance w known amount held short)
            (
              refl,
              refl,
              rw (funds_held create_address tx p value balance w known amount held) short,
            )
      | inr enough ↦
          rw (process_deployment_ok create_address tx p value balance w known amount held enough)
            (deployed-Deploys create_address tx p value balance w known amount held enough)
    ]
