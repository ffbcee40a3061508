-- ===== src/Sequencer/Finality.antt =====
-- processFinalizedBatch: what a decided batch does to the state and to the queue to the L1.
use zkrollup_go.Base.{
  ◌≡◌, refl, ap, ◌∙◌, ℕ, ◌+◌, List, [], ◌∷◌, ◌++◌, none, some, false, arith, length, ◌&&◌, ltb,
  if◌then◌else◌, All,
}
use zkrollup_go.Base.Int.{◌≤ℤ◌}
use zkrollup_go.Outcome.{ok, or_panic, bind_ok}
use zkrollup_go.State.{Address, Batch, State, u64, add_batch}
use zkrollup_go.State.Accounts.{IsWellFormed}
use zkrollup_go.State.Supply.{supply}
use zkrollup_go.Ledger.{finalize}
use zkrollup_go.Ledger.Batches.{IsPayable, process_transactions_settle}
use zkrollup_go.Ledger.Numbering.{history}
use zkrollup_go.Ledger.History.{history-process_transactions}
use zkrollup_go.Sequencer.{Sequencer}
use zkrollup_go.Sequencer.Batching.{submit, process_finalized_batch}

-- The batch as it is recorded, with the next number.
abbrev pub numbered : Batch → State → Batch
numbered batch s = record batch { batch_number = s.batch_number }

-- The state has taken the batch in: it is well formed, holds no more money than before, and the
-- batch is the last of its batches, with the next number.
abbrev pub Records : Batch → State → State → Type 0
Records batch s s' =
    IsWellFormed s'
    × (supply s' ≤ℤ supply s)
    × (s'.batches ≡ s.batches ++ numbered batch s ∷ [])
    × (s'.batch_number ≡ u64 (s.batch_number + 1))

-- the queue to the L1 after a batch
abbrev pub queue : Batch → Sequencer → List Batch
queue batch q =
    if q.l1_enabled && ltb (length q.l1_submit) 10 then q.l1_submit ++ batch ∷ [] else q.l1_submit

submit_lem :
    (batch : Batch) (q : Sequencer) → submit batch q ≡ record q { l1_submit = queue batch q }
unfolding submit
submit_lem batch q = ground arith

module _ (create_address : Address → ℕ → Address) (batch : Batch)
    (payable : All IsPayable batch.transactions) where
  finalize-Records :
      (s : State)
      → IsWellFormed s
      → (s' : State) × (finalize create_address batch s ≡ some (numbered batch s, s'))
        × Records batch s s'
  unfolding finalize add_batch supply
  finalize-Records s w =
      let (t, e, w', less) =
        process_transactions_settle create_address batch.transactions s payable w in
      let same : history t ≡ history s =
        history-process_transactions create_address batch.transactions s t e in
      let number : t.batch_number ≡ s.batch_number = ap (λ h. h.1) same in
      let batches : t.batches ≡ s.batches = ap (λ h. h.0) same in
      (
        (add_batch batch t).1,
        rw (finalize, e)
            (ap (λ n. some (record batch { batch_number = n }, (add_batch batch t).1)) number),
        (
          record { entries = w'.entries; unique = w'.unique },
          less,
          ap (λ r. r.0 ++ record batch { batch_number = r.1 } ∷ []) same,
          ap (λ n. u64 (n + 1)) number,
        ),
      )

  -- From a well-formed state, a decided batch of payable transactions is processed without an error
  -- or a panic, whatever becomes of its transactions; the batch is recorded with the next number,
  -- the sequencer is free for the next batch, its pool is as before, and the queue to the L1 takes
  -- the batch, as recorded, only where there is room.
  pub process_finalized_batch-Records :
      (q : Sequencer)
      → IsWellFormed q.state
      → (q' : Sequencer) × (process_finalized_batch create_address batch q ≡ ok tt q')
        × Records batch q.state q'.state
        × (q'.batch_in_progress ≡ false)
        × (q'.current_batch ≡ none)
        × (q'.tx_pool ≡ q.tx_pool)
        × (q'.l1_submit ≡ queue (numbered batch q.state) q)
  unfolding process_finalized_batch
  process_finalized_batch-Records q w =
      let (s', e, records) = finalize-Records q.state w in
      let q1 : Sequencer = record q {
        state = s';
        batch_in_progress = false;
        current_batch = none;
      } in
      (
        record q1 { l1_submit = queue (numbered batch q.state) q },
        bind_ok q (λ q. or_panic (finalize create_address batch q.state) q) _
              (numbered batch q.state, s') q (rw (e, or_panic) refl)
            ∙ ap (ok tt) (submit_lem (numbered batch q.state) q1),
        records,
        refl,
        refl,
        refl,
        refl,
      )
