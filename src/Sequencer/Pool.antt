-- ===== src/Sequencer/Pool.antt =====
-- tryCreateBatch: no transaction of the pool is lost or doubled.
use zkrollup_go.Base.{
  ◌≡◌, refl, ap, ◌∙◌, ◌⊎◌, ℕ, ◌≤◌, ◌<◌, ◌+◌, ◌/◌, min, [], ◌++◌, some, true, false, inl, inr, arith,
  length, take, drop, length-take, take-append-drop,
}
use zkrollup_go.Outcome.{Outcome, ok, err, panic}
use zkrollup_go.State.{Batch, u64, get_batch_number}
use zkrollup_go.Consensus.Pbft.{Pbft, Environment, propose_batch}
use zkrollup_go.Consensus.Pbft.Proposal.{opening, Proposes, propose_batch-Proposes}
use zkrollup_go.Sequencer.{Sequencer}
use zkrollup_go.Sequencer.Batching.{
  next_size, is_waiting, on_consensus, on_error, lifted, undone, create_batch, try_create_batch,
}

module _ (q : Sequencer) where
  next_size-below : next_size q ≤ length q.tx_pool
  next_size-below = ground arith

  next_size-min : next_size q ≡ min (length q.tx_pool) q.batch_size
  next_size-min = ground arith

-- The pool is short of half a batch, a batch is in progress, or another node leads.
abbrev pub Waits : Sequencer → Type 0
Waits q =
    (length q.tx_pool < q.batch_size / 2) ⊎ (q.batch_in_progress ≡ true) ⊎ (q.is_leader ≡ false)

-- The consensus module takes the batch: the node leads there, and the pre-prepare message is sent.
abbrev pub IsTaken : Environment → Batch → Pbft → Type 0
IsTaken env batch p = (p.is_leader ≡ true) × (env.network p.broadcasts (opening env batch p) ≡ true)

-- What a turn of tryCreateBatch leaves. Where the sequencer waits, nothing changes. Else the batch
-- has the next number plus one and the first transactions of the pool, as many as there are, up to
-- BatchSize. If the consensus module takes it, they are out of the pool and the batch is in
-- progress; if not, they are back in their order and no batch is in progress.
abbrev pub Creates : Environment → Sequencer → Outcome Sequencer (Unit {0}) → Type 0
Creates env q (ok _ q') =
    Waits q × (q' ≡ q)
    ⊎ (Waits q → ⊥)
      × (batch : Batch) × (q'.current_batch ≡ some batch)
      × (batch.batch_number ≡ u64 (get_batch_number q.state + 1))
      × (length batch.transactions ≡ min (length q.tx_pool) q.batch_size)
      × (q'.state ≡ q.state)
      × (IsTaken env batch q.consensus
            × (q'.batch_in_progress ≡ true)
            × (batch.transactions ++ q'.tx_pool ≡ q.tx_pool)
          ⊎ (IsTaken env batch q.consensus → ⊥)
            × (q'.batch_in_progress ≡ false)
            × (q'.tx_pool ≡ q.tx_pool)
            × (batch.transactions ++ drop (length batch.transactions) q.tx_pool ≡ q.tx_pool))
Creates env q (err e q') = ⊥
Creates env q panic = ⊥

module _ (env : Environment) (timestamp : ℕ) (q : Sequencer) where
  size : length (take (next_size q) q.tx_pool) ≡ min (length q.tx_pool) q.batch_size
  size = length-take (next_size q) q.tx_pool (next_size-below q) ∙ next_size-min q

  abbrev next_batch : Batch
  next_batch = record {
    batch_number = u64 (get_batch_number q.state + 1);
    transactions = take (next_size q) q.tx_pool;
    state_root = 0;
    timestamp = timestamp;
    proof = [];
  }

  abbrev taken : Sequencer
  taken = record q {
    batch_in_progress = true;
    tx_pool = drop (next_size q) q.tx_pool;
    current_batch = some next_batch;
  }

  abbrev give_back : Sequencer → Sequencer
  give_back r = record r {
    tx_pool = take (next_size q) q.tx_pool ++ r.tx_pool;
    batch_in_progress = false;
  }

  rest_kept :
      take (next_size q) q.tx_pool ++ drop (length (take (next_size q) q.tx_pool)) q.tx_pool
      ≡ q.tx_pool
  rest_kept =
      ap (λ n. take (next_size q) q.tx_pool ++ drop n q.tx_pool)
        (length-take (next_size q) q.tx_pool (next_size-below q))
      ∙ take-append-drop (next_size q) q.tx_pool

  proposed-Creates :
      (r : Outcome Pbft (Unit {0}))
      → (Waits q → ⊥)
      → Proposes env next_batch q.consensus r
      → Creates env q (undone give_back false (lifted taken r))
  proposed-Creates (ok _ c) ready (leads, sent, _, _) = inr (
    ready,
    next_batch,
    refl,
    refl,
    size,
    refl,
    inl ((leads, sent), refl, take-append-drop (next_size q) q.tx_pool),
  )
  proposed-Creates (err e c) ready h = inr (
    ready,
    next_batch,
    refl,
    refl,
    size,
    refl,
    inr (
      (λ passes. elim h [
        | inl (_, follows, _) ↦ ground (arith, passes.0, follows)
        | inr (_, _, unsent, _) ↦ ground (arith, passes.1, unsent)
      ]),
      refl,
      take-append-drop (next_size q) q.tx_pool,
      rest_kept,
    ),
  )
  proposed-Creates panic ready h = absurd h

  create_batch-Creates : (Waits q → ⊥) → Creates env q (create_batch env timestamp q)
  unfolding create_batch on_error on_consensus
  create_batch-Creates ready =
      proposed-Creates (propose_batch env next_batch q.consensus) ready
        (propose_batch-Proposes env next_batch q.consensus)

  waiting_cases : (is_waiting q ≡ true) × Waits q ⊎ (is_waiting q ≡ false) × (Waits q → ⊥)
  waiting_cases = ground arith

  -- A turn of tryCreateBatch always ends, without an error or a panic. It waits exactly where the
  -- pool is short of half a batch, a batch is in progress or another node leads. Else it takes the
  -- first transactions of the pool, as many as BatchSize allows, and proposes them: they are out of
  -- the pool, and the batch is in progress, exactly where the node leads in the consensus and the
  -- pre-prepare message is sent; if not, they are back in their order, and none is in progress.
  pub try_create_batch-Creates : Creates env q (try_create_batch env timestamp q)
  unfolding try_create_batch
  try_create_batch-Creates = elim waiting_cases [
    | inl (waits, why) ↦ rw (waits) (inl (why, refl))
    | inr (goes, ready) ↦ rw (goes) (create_batch-Creates ready)
  ]
