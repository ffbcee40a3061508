-- ===== src/Consensus/Rounds/Quorate.antt =====
-- pkg/consensus/pbft.go, HandleMessage: the handlers of a node among fixed nodes, and the votes
-- behind its rounds.
use zkrollup_go.Base.{
  ◌≡◌, ◌≤◌, inl, inr, refl, ap, ℕ, List, [], ◌∷◌, Option, Bool, true, leb, Bool-cases, String, ◌++◌,
  length, string_eq, nat_eq, if◌then◌else◌, arith,
}
use zkrollup_go.Outcome.{pure, modify, ◌>>◌}
use zkrollup_go.Outcome.Frame.{Keeps}
use zkrollup_go.Consensus.Types.{
  MessageType, ConsensusMessage, ConsensusState, pre_prepare, prepare, commit, quorum,
}
use zkrollup_go.Consensus.Pbft.{Pbft, Environment, put_state, is_known}
use zkrollup_go.Consensus.Rounds.{
  on_pre_prepare, maybe_commit, on_prepare, hand_over, maybe_decide, on_commit, dispatch,
}
use zkrollup_go.State.{Batch}
use zkrollup_go.Consensus.Rounds.Commits.{voted, decides}
use zkrollup_go.Consensus.Rounds.Certificates.{
  IsCertificate, IsCertified, certified, vote-IsCertificate, unmoved,
}
use zkrollup_go.Outcome.Frame.{pure-Keeps}

module _ (env : Environment) (ids : List String) (msg : ConsensusMessage) (state : ConsensusState)
    (certificate : IsCertificate ids state.commit_count state.decided) where
  on_pre_prepare-IsCertified : Keeps (IsCertified ids) (on_pre_prepare env msg state)
  unfolding on_pre_prepare
  on_pre_prepare-IsCertified = search certified depth 14

  maybe_commit-IsCertified :
      (voted : ConsensusState)
      → IsCertificate ids voted.commit_count voted.decided
      → Keeps (IsCertified ids) (maybe_commit env msg voted)
  unfolding maybe_commit
  maybe_commit-IsCertified voted kept = search certified depth 14

  on_prepare-IsCertified : Keeps (IsCertified ids) (on_prepare env msg state)
  unfolding on_prepare
  on_prepare-IsCertified = search (certified, maybe_commit-IsCertified) depth 14

  other_fields :
      (lead : Bool) (view : ℕ) (q : Pbft)
      → IsCertified ids q
      → IsCertified ids (record q { is_leader = lead; view = view })
  other_fields lead view q h = unmoved env ids q _ refl refl refl refl h

  handed :
      (batch : Option Batch) (q : Pbft)
      → IsCertified ids q
      → IsCertified ids (record q { decided_batch = q.decided_batch ++ batch ∷ [] })
  handed batch q h = unmoved env ids q _ refl refl refl refl h

  hand_over-IsCertified : Keeps (IsCertified ids) (hand_over env)
  unfolding hand_over
  hand_over-IsCertified = search (certified, other_fields) depth 14

  decided-IsCertificate :
      (q : Pbft)
      → IsCertified ids q
      → leb (quorum q.total_nodes) (length (voted msg state).commit_count) ≡ true
      → is_known msg.node_id ids ≡ true
      → IsCertificate ids (voted msg state).commit_count true
  decided-IsCertificate q h quorate known =
      let more =
        vote-IsCertificate env ids msg.node_id state.commit_count state.decided known certificate in
      record {
        unique = more.unique;
        from_nodes = more.from_nodes;
        enough = λ _.
            let votes : quorum q.total_nodes ≤ length (voted msg state).commit_count =
              ground (arith, quorate) in
            omega (arith, votes, ap quorum h.total);
      }

  decision-IsCertified :
      (lead : Bool)
      → IsCertificate ids (voted msg state).commit_count true
      → Keeps (IsCertified ids) (do
        modify (put_state msg.batch_hash (record (voted msg state) { decided = true }))
        if lead then hand_over env else pure tt
        modify (λ q. record q { decided_batch = q.decided_batch ++ state.batch ∷ [] }))
  decision-IsCertified lead enough = search (certified, hand_over-IsCertified, handed) depth 14

  maybe_decide-IsCertified :
      is_known msg.node_id ids ≡ true
      → Keeps (IsCertified ids) (maybe_decide env msg (voted msg state))
  unfolding maybe_decide
  maybe_decide-IsCertified known = record {
    run = λ q h. elim (Bool-cases (decides q msg state)) [
      | inr waits ↦ rw (waits) h
      | inl fires ↦ rw (fires) (
          (decision-IsCertified q.is_leader
              (decided-IsCertificate q h (ground (arith, fires)) known)).run
            q h)
    ];
  }

  on_commit-IsCertified :
      is_known msg.node_id ids ≡ true → Keeps (IsCertified ids) (on_commit env msg state)
  unfolding on_commit
  on_commit-IsCertified known =
      search (certified, maybe_decide-IsCertified, vote-IsCertificate) depth 14

  pub dispatch-IsCertified :
      (kind : MessageType)
      → is_known msg.node_id ids ≡ true
      → Keeps (IsCertified ids) (dispatch env kind msg state)
  unfolding dispatch
  dispatch-IsCertified pre_prepare known = on_pre_prepare-IsCertified
  dispatch-IsCertified prepare known = on_prepare-IsCertified
  dispatch-IsCertified commit known = on_commit-IsCertified known
  dispatch-IsCertified _ known = pure-Keeps (IsCertified ids)
