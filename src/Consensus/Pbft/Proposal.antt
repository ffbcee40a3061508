-- ===== src/Consensus/Pbft/Proposal.antt =====
-- ProposeBatch: how it ends.
use zkrollup_go.Base.{
  ◌≡◌, ◌⊎◌, ◌+◌, [], ◌∷◌, ◌++◌, some, true, false, arith, leb, string_eq, if◌then◌else◌,
}
use zkrollup_go.Outcome.{Outcome, ok, err, panic, not_leader, broadcast_failed}
use zkrollup_go.State.{Batch, u64}
use zkrollup_go.Consensus.Types.{ConsensusMessage, pre_prepare, new_consensus_state}
use zkrollup_go.Consensus.Pbft.{
  Pbft, Environment, message, broadcast, try_broadcast, put_state, propose_batch,
}

module _ (env : Environment) (batch : Batch) (p : Pbft) where
  -- the message that opens the round
  abbrev pub opening : ConsensusMessage
  opening = record (message pre_prepare p.sequence (env.hash_batch (some batch)) p) {
    batch = some batch;
  }

  -- how a proposal ends
  abbrev pub Proposes : Outcome Pbft (Unit {0}) → Type 0
  Proposes (ok _ q) =
      (p.is_leader ≡ true)
      × (env.network p.broadcasts opening ≡ true)
      × (q.sequence ≡ u64 (p.sequence + 1))
      × (q.decided_batch
          ≡ (if leb p.total_nodes 1 then p.decided_batch ++ some batch ∷ [] else p.decided_batch))
  Proposes (err e q) =
      (e ≡ not_leader) × (p.is_leader ≡ false) × (q ≡ p)
      ⊎ (e ≡ broadcast_failed)
        × (p.is_leader ≡ true)
        × (env.network p.broadcasts opening ≡ false)
        × (q.decided_batch ≡ p.decided_batch)
  Proposes panic = ⊥

  -- A proposal never panics. It fails for a node that is not the leader, which then changes nothing,
  -- and where the pre-prepare message cannot be sent; else the sequence number goes up by one, and
  -- a node on its own hands over the batch at once.
  pub propose_batch-Proposes : Proposes (propose_batch env batch p)
  unfolding propose_batch broadcast try_broadcast put_state new_consensus_state
  propose_batch-Proposes = ground arith
