-- ===== src/Evm/Adapter/Pointers.antt =====
-- The object behind a known address stays the same object: a pointer that the caller of the
-- adapter holds is still the account's pointer after ApplyChanges.
use zkrollup_go.Base.{ℕ, ◌≡◌, List, some, nat_eqb_iff, Map, [], ◌∷◌, arith, inl, inr, Option-cases}
use zkrollup_go.Base.Int.{ℤ, pos}
use zkrollup_go.State.{Address, Hash, Pointer, State, get_account, store, set_code, set_storage}
use zkrollup_go.State.Accounts.{IsWellFormed, get_account-create}
use zkrollup_go.Evm.Adapter.{
  StateAdapter, apply_balances, apply_nonces, apply_codes, apply_storage, apply_slots,
  apply_changes, apply_balance, apply_nonce,
}
use zkrollup_go.Evm.Adapter.Apply.{
  apply_balance_missing, apply_balance_known, apply_nonce_missing, apply_nonce_known,
  apply_balance-IsWellFormed, apply_nonce-IsWellFormed,
}
use zkrollup_go.Evm.Adapter.Views.{apply_balances-IsWellFormed}

module _ (b : Address) (p : Pointer) where
  abbrev PointsTo : State → Type 0
  PointsTo s = get_account b s ≡ some p

  apply_balance-PointsTo :
      {s : State} (addr : Address) (balance : ℤ)
      → IsWellFormed s
      → PointsTo s
      → PointsTo (apply_balance addr balance s)
  unfolding store get_account
  apply_balance-PointsTo {s} addr balance w h = elim (Option-cases (get_account addr s)) [
    | inl e ↦ rw (apply_balance_missing s addr balance e) (
        ground (
          arith,
          get_account-create (record { address = addr; balance = some balance; nonce = 0 }) w b,
          nat_eqb_iff addr b,
        ))
    | inr (q, e) ↦ rw (apply_balance_known s addr balance w q e) h
  ]

  apply_nonce-PointsTo :
      {s : State} (addr : Address) (nonce : ℕ)
      → IsWellFormed s
      → PointsTo s
      → PointsTo (apply_nonce addr nonce s)
  unfolding store get_account
  apply_nonce-PointsTo {s} addr nonce w h = elim (Option-cases (get_account addr s)) [
    | inl e ↦ rw (apply_nonce_missing s addr nonce e) (
        ground (
          arith,
          get_account-create (record { address = addr; balance = some (pos 0); nonce = nonce }) w b,
          nat_eqb_iff addr b,
        ))
    | inr (q, e) ↦ rw (apply_nonce_known s addr nonce w q e) h
  ]

  apply_balances-PointsTo :
      (m : Map Address ℤ) (s : State) → IsWellFormed s → PointsTo s → PointsTo (apply_balances m s)
  unfolding apply_balances
  apply_balances-PointsTo [] s w h = h
  apply_balances-PointsTo ((addr, balance) ∷ m) s w h =
      apply_balances-PointsTo m (apply_balance addr balance s)
        (apply_balance-IsWellFormed addr balance w) (apply_balance-PointsTo addr balance w h)

  apply_nonces-PointsTo :
      (m : Map Address ℕ) (s : State) → IsWellFormed s → PointsTo s → PointsTo (apply_nonces m s)
  unfolding apply_nonces
  apply_nonces-PointsTo [] s w h = h
  apply_nonces-PointsTo ((addr, nonce) ∷ m) s w h =
      apply_nonces-PointsTo m (apply_nonce addr nonce s) (apply_nonce-IsWellFormed addr nonce w)
        (apply_nonce-PointsTo addr nonce w h)

  apply_codes-PointsTo :
      (m : Map Address (List ℕ)) (s : State) → PointsTo s → PointsTo (apply_codes m s)
  unfolding apply_codes set_code get_account
  apply_codes-PointsTo [] s h = h
  apply_codes-PointsTo ((addr, code) ∷ m) s h = apply_codes-PointsTo m (set_code addr code s) h

  apply_slots-PointsTo :
      (addr : Address) (m : Map Hash Hash) (s : State)
      → PointsTo s
      → PointsTo (apply_slots addr m s)
  unfolding apply_slots set_storage get_account
  apply_slots-PointsTo addr [] s h = h
  apply_slots-PointsTo addr ((key, value) ∷ m) s h =
      apply_slots-PointsTo addr m (set_storage addr key value s) h

  apply_storage-PointsTo :
      (m : Map Address (Map Hash Hash)) (s : State) → PointsTo s → PointsTo (apply_storage m s)
  unfolding apply_storage
  apply_storage-PointsTo [] s h = h
  apply_storage-PointsTo ((addr, slots) ∷ m) s h =
      apply_storage-PointsTo m (apply_slots addr slots s) (apply_slots-PointsTo addr slots s h)

  pub get_account-apply_changes :
      (a : StateAdapter)
      → IsWellFormed a.rollup_state
      → get_account b a.rollup_state ≡ some p
      → get_account b (apply_changes a).rollup_state ≡ some p
  unfolding apply_changes
  get_account-apply_changes a w h = apply_storage-PointsTo a.storage_changes _ (
      apply_codes-PointsTo a.code_changes _ (
        apply_nonces-PointsTo a.nonce_changes _
          (apply_balances-IsWellFormed a.balance_changes a.rollup_state w)
          (apply_balances-PointsTo a.balance_changes a.rollup_state w h)))
