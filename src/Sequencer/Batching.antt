-- ===== src/Sequencer/Batching.antt =====
-- pkg/sequencer/sequencer.go: from the pool to a batch, and from a decided batch to the state. A
-- goroutine's loop is a step for each turn.
use zkrollup_go.Base.{
  ℕ, ◌+◌, ◌/◌, List, [], ◌∷◌, ◌++◌, none, some, Bool, true, false, not, ◌&&◌, ◌||◌, ltb, leb,
  nat_eqb, if◌then◌else◌, length, take, drop, get_elem?,
}
use zkrollup_go.Outcome.{M, Outcome, ok, err, panic, pure, gets, or_panic, modify, ◌>>=◌, ◌>>◌}
use zkrollup_go.State.{Address, Batch, u64, get_batch_number}
use zkrollup_go.Ledger.{finalize}
use zkrollup_go.Consensus.Pbft.{Pbft, Environment, propose_batch, update_total_nodes}
use zkrollup_go.Consensus.Handler.{handle_message}
use zkrollup_go.Sequencer.{Sequencer}

abbrev pub lifted : {A : Type 0} → Sequencer → Outcome Pbft A → Outcome Sequencer A
lifted q (ok a c) = ok a (record q { consensus = c })
lifted q (err e c) = err e (record q { consensus = c })
lifted q panic = panic

-- A method of the consensus module.
unfoldable pub on_consensus : {A : Type 0} → M Pbft A → M Sequencer A
on_consensus run q = lifted q (run q.consensus)

abbrev pub undone :
    (Sequencer → Sequencer) → Bool → Outcome Sequencer (Unit {0}) → Outcome Sequencer (Unit {0})
undone undo returns (ok _ q) = ok tt q
undone undo true (err e q) = err e (undo q)
undone undo false (err e q) = ok tt (undo q)
undone undo returns panic = panic

-- What the caller does on an error, and whether it passes the error on.
unfoldable pub on_error :
    M Sequencer (Unit {0}) → (Sequencer → Sequencer) → Bool → M Sequencer (Unit {0})
on_error run undo returns q = undone undo returns (run q)

-- How many transactions the next batch takes: `min(txCount, int(BatchSize))`
abbrev pub next_size : Sequencer → ℕ
next_size q = if leb (length q.tx_pool) q.batch_size then length q.tx_pool else q.batch_size

-- the early returns of tryCreateBatch
abbrev pub is_waiting : Sequencer → Bool
is_waiting q = ltb (length q.tx_pool) (q.batch_size / 2) || q.batch_in_progress || not q.is_leader

module _ (env : Environment) where
  -- tryCreateBatch, from where it takes transactions from the pool; the time is an argument.
  unfoldable pub create_batch : ℕ → M Sequencer (Unit {0})
  create_batch timestamp = do
    q ← gets (λ q. q)
    let batch_txs = take (next_size q) q.tx_pool
    let batch : Batch = record {
      batch_number = u64 (get_batch_number q.state + 1);
      transactions = batch_txs;
      state_root = 0;
      timestamp = timestamp;
      proof = [];
    }
    modify (λ q. record q {
      batch_in_progress = true;
      tx_pool = drop (next_size q) q.tx_pool;
      current_batch = some batch;
    })
    on_error (on_consensus (propose_batch env batch))
        (λ q. record q { tx_pool = batch_txs ++ q.tx_pool; batch_in_progress = false }) false

  -- `tryCreateBatch`
  unfoldable pub try_create_batch : ℕ → M Sequencer (Unit {0})
  try_create_batch timestamp = do
    waiting ← gets is_waiting
    if waiting then pure tt else create_batch timestamp

  -- `handleBatch`
  unfoldable pub handle_batch : Batch → M Sequencer (Unit {0})
  handle_batch batch = do
    is_leader ← gets (λ q. q.is_leader)
    modify (λ q. record q { current_batch = some batch; batch_in_progress = true })
    (if is_leader
        then on_error (on_consensus (propose_batch env batch))
            (λ q. record q { batch_in_progress = false; current_batch = none }) true
        else pure tt)

  -- `handleConsensus`
  unfoldable pub handle_consensus : List ℕ → M Sequencer (Unit {0})
  handle_consensus msg = on_consensus (handle_message env msg)

-- the `select` on the channel to the L1, which has room for 10 batches
unfoldable pub submit : Batch → Sequencer → Sequencer
submit batch q =
    if q.l1_enabled && ltb (length q.l1_submit) 10
    then record q { l1_submit = q.l1_submit ++ batch ∷ [] }
    else q

-- a turn of the loop of monitorPeerCount
unfoldable pub monitor_peer_count : ℕ → Sequencer → Sequencer
monitor_peer_count peers q =
    if nat_eqb (peers + 1) q.peer_count
    then q
    else record q { peer_count = peers + 1; consensus = update_total_nodes (peers + 1) q.consensus }

module _ (create_address : Address → ℕ → Address) where
  -- `processFinalizedBatch`
  unfoldable pub process_finalized_batch : Batch → M Sequencer (Unit {0})
  process_finalized_batch batch = do
    finalized ← (λ q. or_panic (finalize create_address batch q.state) q)
    modify (λ q. record q { state = finalized.1; batch_in_progress = false; current_batch = none })
    modify (submit finalized.0)

  -- A turn of the loop of participateConsensus: the next batch from the channel, if there is one.
  -- A nil batch is dereferenced.
  unfoldable pub participate_consensus : M Sequencer (Unit {0})
  participate_consensus q = elim (get_elem? q.consensus.decided_batch q.received) [
    | none ↦ ok tt q
    | some decided ↦
        (do
          batch ← or_panic decided
          modify (λ q. record q { received = q.received + 1 })
          process_finalized_batch batch
          modify (λ q. record q { is_leader = q.consensus.is_leader }))
          q
  ]
