-- ===== src/Sequencer/Invariant.antt =====
-- What stays true of the sequencer, and that a new transaction keeps it.
use zkrollup_go.Base.{
  ◌≡◌, refl, ap, sym, ◌∙◌, ℕ, suc, ◌+◌, ◌≤◌, List, [], ◌∷◌, ◌++◌, Option, none, some, arith, length,
}
use zkrollup_go.Outcome.{M, Outcome, ok, err, panic, or_panic}
use zkrollup_go.Outcome.Frame.{Leaves, Keeps, keeps, or_panic-Keeps}
use zkrollup_go.State.{
  Address, Pointer, Transaction, Batch, State, u64, get_account, store, set_account, new_account,
}
use zkrollup_go.State.Accounts.{IsWellFormed, create_account}
use zkrollup_go.Ledger.Numbering.{history, Has, balance_or_panic-Keeps}
use zkrollup_go.Sequencer.{
  Sequencer, on_state, fund_found, fund_sender, open_recipient, check_sender, validate,
  add_transaction, handle_transaction,
}
use zkrollup_go.Sequencer.Admission.{
  fund_sender_lem, open_recipient_lem, opened-IsWellFormed, funded-Funds,
}

-- The batches from place `k` on have the numbers of their places.
abbrev pub AreNumbered : ℕ → List Batch → Type 0
AreNumbered k [] = Unit
AreNumbered k (batch ∷ rest) = (batch.batch_number ≡ u64 k) × AreNumbered (suc k) rest

-- The state is well formed, its batches are numbered by their places, the next batch gets the next
-- number, and no more batches wait for the L1 than its channel has room for.
abbrev pub IsSound : Sequencer → Type 0
IsSound q =
    IsWellFormed q.state
    × AreNumbered 0 q.state.batches
    × (q.state.batch_number ≡ u64 (length q.state.batches))
    × (length q.l1_submit ≤ 10)

pub AreNumbered-append :
    (k : ℕ) (batches : List Batch) (batch : Batch)
    → AreNumbered k batches
    → batch.batch_number ≡ u64 (k + length batches)
    → AreNumbered k (batches ++ batch ∷ [])
AreNumbered-append k [] batch h e = (e ∙ ap u64 (omega arith), tt)
AreNumbered-append k (b ∷ rest) batch h e =
    (h.0, AreNumbered-append (suc k) rest batch h.1 (e ∙ ap u64 (omega arith)))

module _ (h : List Batch × ℕ) where
  fund_found-Keeps : (from : Address) (o : Option Pointer) → Keeps (Has h) (fund_found from o)
  unfolding fund_found create_account new_account set_account store
  fund_found-Keeps from none = record { run = λ s has. has }
  fund_found-Keeps from (some p) = record { run = λ s has. ground arith }

  fund_sender-Keeps : (from : Address) → Keeps (Has h) (fund_sender from)
  unfolding fund_sender
  fund_sender-Keeps from = record {
    run = λ s has. (fund_found-Keeps from (get_account from s)).run s has;
  }

  open_recipient-Keeps : (to : Address) → Keeps (Has h) (open_recipient to)
  unfolding open_recipient create_account new_account set_account store
  open_recipient-Keeps to = record { run = λ s has. ground arith }

  check_sender-Keeps : (p : Pointer) (tx : Transaction) → Keeps (Has h) (check_sender p tx)
  unfolding check_sender
  check_sender-Keeps p tx = search (keeps, balance_or_panic-Keeps) depth 12

  validate-Keeps : (tx : Transaction) → Keeps (Has h) (validate tx)
  unfolding validate
  validate-Keeps tx =
      search (keeps, fund_sender-Keeps, open_recipient-Keeps, check_sender-Keeps) depth 12

both_Leaves :
    {S A : Type 0} (P Q : S → Type 0) (r : Outcome S A)
    → Leaves P r
    → Leaves Q r
    → Leaves (λ s. P s × Q s) r
both_Leaves P Q (ok _ s) p q = (p, q)
both_Leaves P Q (err _ s) p q = (p, q)
both_Leaves P Q panic p q = tt

-- What looking up the accounts keeps of the state.
fund_sender_kept : (from : Address) → Keeps IsWellFormed (fund_sender from)
fund_sender_kept from = record {
  run = λ s w. let (p, e, known) = fund_sender_lem from w in rw (e) (funded-Funds from from w).0;
}

open_recipient_kept : (to : Address) → Keeps IsWellFormed (open_recipient to)
open_recipient_kept to = record {
  run = λ s w. rw (open_recipient_lem to w) (opened-IsWellFormed to w);
}

balance_or_panic_kept : (p : Pointer) → Keeps IsWellFormed (λ s. or_panic (s.heap p).balance s)
balance_or_panic_kept p = record {
  run = λ s w. (or_panic-Keeps IsWellFormed (s.heap p).balance).run s w;
}

check_sender_kept : (p : Pointer) (tx : Transaction) → Keeps IsWellFormed (check_sender p tx)
unfolding check_sender
check_sender_kept p tx = search (keeps, balance_or_panic_kept) depth 12

validate_kept : (tx : Transaction) → Keeps IsWellFormed (validate tx)
unfolding validate
validate_kept tx = search (keeps, fund_sender_kept, open_recipient_kept, check_sender_kept) depth 12

on_state-IsSound :
    {A : Type 0} (run : M State A)
    → Keeps IsWellFormed run
    → ((h : List Batch × ℕ) → Keeps (Has h) run)
    → Keeps IsSound (on_state run)
unfolding on_state
on_state-IsSound {A} run w k = record {
  run = λ q sound. go q (run q.state) sound (
      both_Leaves IsWellFormed (Has (history q.state)) (run q.state) (w.run q.state sound.0)
        ((k (history q.state)).run q.state refl));
}
  where
    still :
        (q : Sequencer) (s : State)
        → IsSound q
        → IsWellFormed s × Has (history q.state) s
        → IsSound (record q { state = s })
    still q s sound (w, has) =
        let batches : s.batches ≡ q.state.batches = ap (λ h. h.0) has in
        let number : s.batch_number ≡ q.state.batch_number = ap (λ h. h.1) has in
        (
          w,
          rw (batches) sound.1,
          number ∙ sound.2 ∙ ap (λ b. u64 (length b)) (sym batches),
          sound.3,
        )

    go :
        (q : Sequencer) (r : Outcome State A)
        → IsSound q
        → Leaves (λ s. IsWellFormed s × Has (history q.state) s) r
        → Leaves {A = A} IsSound (elim r [
          | ok a s ↦ ok a (record q { state = s })
          | err e s ↦ err e (record q { state = s })
          | panic ↦ panic
        ])
    go q (ok a s) sound h = still q s sound h
    go q (err x s) sound h = still q s sound h
    go q panic sound h = tt

pub add_transaction-Keeps : (tx : Transaction) → Keeps IsSound (add_transaction tx)
unfolding add_transaction
add_transaction-Keeps tx = search (keeps, on_state-IsSound, validate_kept, validate-Keeps) depth 14

-- Any transaction at all, also one without an amount.
pub handle_transaction-Keeps : (tx : Transaction) → Keeps IsSound (handle_transaction tx)
unfolding handle_transaction add_transaction
handle_transaction-Keeps tx =
    search (keeps, on_state-IsSound, validate_kept, validate-Keeps) depth 14
