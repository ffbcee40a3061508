-- ===== src/Sequencer/Machine.antt =====
-- The sequencer as a machine that events drive, and what holds after any sequence of them.
use zkrollup_go.Base.{
  ◌≡◌, refl, ap, ◌∙◌, ℕ, ◌≤◌, List, [], ◌∷◌, Bool, true, false, arith, length, length-append, All,
  String,
}
use zkrollup_go.Outcome.{M, Outcome, ok, err, panic}
use zkrollup_go.Outcome.Frame.{Leaves, Keeps, keeps, Ends, Leaves-end}
use zkrollup_go.State.{Address, Transaction, Batch, u64}
use zkrollup_go.State.Accounts.{new_state-IsWellFormed}
use zkrollup_go.Ledger.Batches.{IsPayable}
use zkrollup_go.Consensus.Pbft.{Pbft, Environment}
use zkrollup_go.Sequencer.{Sequencer, new_sequencer, handle_transaction}
use zkrollup_go.Sequencer.Batching.{
  on_consensus, on_error, lifted, undone, create_batch, try_create_batch, handle_batch,
  handle_consensus, monitor_peer_count, process_finalized_batch,
}
use zkrollup_go.Sequencer.Finality.{queue, numbered, Records, process_finalized_batch-Records}
use zkrollup_go.Sequencer.Invariant.{IsSound, AreNumbered-append, handle_transaction-Keeps}

pub on_consensus-Keeps : {A : Type 0} (run : M Pbft A) → Keeps IsSound (on_consensus run)
unfolding on_consensus
on_consensus-Keeps {A} run = record { run = λ q sound. go q sound (run q.consensus) }
  where
    go : (q : Sequencer) → IsSound q → (r : Outcome Pbft A) → Leaves {A = A} IsSound (lifted q r)
    go q sound (ok a c) = sound
    go q sound (err e c) = sound
    go q sound panic = tt

on_error-Keeps :
    {run : M Sequencer (Unit {0})} (undo : Sequencer → Sequencer) (returns : Bool)
    → Keeps IsSound run
    → ((q : Sequencer) → IsSound q → IsSound (undo q))
    → Keeps IsSound (on_error run undo returns)
unfolding on_error
on_error-Keeps {run} undo returns k u = record {
  run = λ q sound. go returns (run q) (k.run q sound);
}
  where
    go :
        (returns : Bool) (r : Outcome Sequencer (Unit {0}))
        → Leaves IsSound r
        → Leaves IsSound (undone undo returns r)
    go returns (ok _ q) h = h
    go true (err e q) h = u q h
    go false (err e q) h = u q h
    go returns panic h = tt

module _ (env : Environment) where
  try_create_batch-Keeps : (timestamp : ℕ) → Keeps IsSound (try_create_batch env timestamp)
  unfolding try_create_batch create_batch
  try_create_batch-Keeps timestamp = search (keeps, on_consensus-Keeps, on_error-Keeps) depth 14

  pub handle_batch-Keeps : (batch : Batch) → Keeps IsSound (handle_batch env batch)
  unfolding handle_batch
  handle_batch-Keeps batch = search (keeps, on_consensus-Keeps, on_error-Keeps) depth 14

  pub handle_consensus-Keeps : (msg : List ℕ) → Keeps IsSound (handle_consensus env msg)
  unfolding handle_consensus
  handle_consensus-Keeps msg = search on_consensus-Keeps

monitor_peer_count-IsSound :
    (peers : ℕ) (q : Sequencer) → IsSound q → IsSound (monitor_peer_count peers q)
unfolding monitor_peer_count
monitor_peer_count-IsSound peers q sound = ground arith

queue-short :
    (batch : Batch) (q : Sequencer) → length q.l1_submit ≤ 10 → length (queue batch q) ≤ 10
queue-short batch q h = ground (arith, length-append q.l1_submit (batch ∷ []))

finalized-IsSound :
    (batch : Batch) (q q' : Sequencer)
    → IsSound q
    → Records batch q.state q'.state
    → q'.l1_submit ≡ queue (numbered batch q.state) q
    → IsSound q'
finalized-IsSound batch q q' sound records submitted = (
  records.0,
  rw (records.2) (
      AreNumbered-append 0 q.state.batches (numbered batch q.state) sound.1
        (sound.2 ∙ ap u64 (omega arith))),
  omega (
    arith,
    records.3,
    sound.2,
    ap length records.2,
    length-append q.state.batches (numbered batch q.state ∷ []),
  ),
  rw (submitted) (queue-short (numbered batch q.state) q sound.3),
)

-- The states of a sequencer from its start, under any transactions, ticks of the
-- batch timer, batches and messages of peers, counts of peers, and decided batches of payable
-- transactions, in any order.
pub data Running (env : Environment) (create_address : Address → ℕ → Address)
    : Sequencer → Type 0 where
  boot :
      (batch_size : ℕ) (l1_enabled : Bool) (node_id : String) (is_leader : Bool)
      → Running env create_address (new_sequencer batch_size l1_enabled node_id is_leader)
  transact :
      {q q' : Sequencer} (tx : Transaction)
      → Running env create_address q
      → Ends (handle_transaction tx q) q'
      → Running env create_address q'
  tick :
      {q q' : Sequencer} (timestamp : ℕ)
      → Running env create_address q
      → Ends (try_create_batch env timestamp q) q'
      → Running env create_address q'
  offer :
      {q q' : Sequencer} (batch : Batch)
      → Running env create_address q
      → Ends (handle_batch env batch q) q'
      → Running env create_address q'
  message :
      {q q' : Sequencer} (bytes : List ℕ)
      → Running env create_address q
      → Ends (handle_consensus env bytes q) q'
      → Running env create_address q'
  count :
      {q : Sequencer} (peers : ℕ)
      → Running env create_address q
      → Running env create_address (monitor_peer_count peers q)
  decide :
      {q q' : Sequencer} (batch : Batch)
      → Running env create_address q
      → All IsPayable batch.transactions
      → Ends (process_finalized_batch create_address batch q) q'
      → Running env create_address q'

module _ (env : Environment) (create_address : Address → ℕ → Address) where
  decided-IsSound :
      (batch : Batch) (q : Sequencer)
      → All IsPayable batch.transactions
      → IsSound q
      → Leaves IsSound (process_finalized_batch create_address batch q)
  decided-IsSound batch q payable sound =
      let (q', e, records, free, none_left, pool, submitted) =
        process_finalized_batch-Records create_address batch payable q sound.0 in
      rw (e) (finalized-IsSound batch q q' sound records submitted)

  -- In every state that the sequencer runs into, the accounts are well formed, the batches are
  -- numbered by their places, and at most 10 batches wait for the L1.
  pub Running-IsSound : (q : Sequencer) → Running env create_address q → IsSound q
  unfolding new_sequencer
  Running-IsSound _ (boot batch_size l1_enabled node_id is_leader) =
      (new_state-IsWellFormed, tt, refl, omega arith)
  Running-IsSound q' (transact {q} tx r e) =
      Leaves-end IsSound (handle_transaction tx q) q'
        ((handle_transaction-Keeps tx).run q (Running-IsSound q r)) e
  Running-IsSound q' (tick {q} timestamp r e) =
      Leaves-end IsSound (try_create_batch env timestamp q) q'
        ((try_create_batch-Keeps env timestamp).run q (Running-IsSound q r)) e
  Running-IsSound q' (offer {q} batch r e) =
      Leaves-end IsSound (handle_batch env batch q) q'
        ((handle_batch-Keeps env batch).run q (Running-IsSound q r)) e
  Running-IsSound q' (message {q} bytes r e) =
      Leaves-end IsSound (handle_consensus env bytes q) q'
        ((handle_consensus-Keeps env bytes).run q (Running-IsSound q r)) e
  Running-IsSound _ (count {q} peers r) = monitor_peer_count-IsSound peers q (Running-IsSound q r)
  Running-IsSound q' (decide {q} batch r payable e) =
      Leaves-end IsSound (process_finalized_batch create_address batch q) q'
        (decided-IsSound batch q payable (Running-IsSound q r)) e
