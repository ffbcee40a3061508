-- ===== src/Consensus/Rounds.antt =====
-- pkg/consensus/pbft.go, HandleMessage: the three phases of a round, and leader rotation. A handler
-- changes the round's state through the pointer that the map holds, so each change is a write of
-- the map, and what was written before an error stays.
pub mod Commits
pub mod Decisions
pub mod Voters
pub mod Overlap
pub mod Certificates
pub mod Quorate
pub mod Votes
use zkrollup_go.Base.{
  ◌+◌, [], ◌∷◌, ◌++◌, none, some, lookup, insert, true, not, ◌&&◌, leb, if◌then◌else◌, length, ◌==◌,
  string_eq, nat_eq,
}
use zkrollup_go.Outcome.{
  M, ok, err, pure, gets, or_panic, raise_if, modify, ◌>>=◌, ◌>>◌, wrong_view, unknown_batch,
  wrong_phase,
}
use zkrollup_go.State.{u64}
use zkrollup_go.Consensus.Types.{
  MessageType, ConsensusMessage, ConsensusState, is_pre_prepare, is_past_prepare,
  new_consensus_state, quorum, pre_prepare, prepare, commit, leader_rotation,
}
use zkrollup_go.Consensus.Pbft.{
  Pbft, Environment, message, put_state, broadcast, try_broadcast, rotate_leader,
}

module _ (env : Environment) where
  -- the `case PrePrepare`
  unfoldable pub on_pre_prepare : ConsensusMessage → ConsensusState → M Pbft (Unit {0})
  on_pre_prepare msg state = do
    raise_if (not (is_pre_prepare state.phase)) wrong_phase
    p ← gets (λ p. p)
    let voted : ConsensusState = record state {
      pre_prepare_msg = some msg;
      prepare_count = insert p.node_id true state.prepare_count;
    }
    modify (put_state msg.batch_hash voted)
    broadcast env (message prepare msg.sequence msg.batch_hash p)
    modify (put_state msg.batch_hash (record voted { phase = prepare }))

  -- the `case Prepare`, from the count on
  unfoldable pub maybe_commit : ConsensusMessage → ConsensusState → M Pbft (Unit {0})
  maybe_commit msg voted = do
    p ← gets (λ p. p)
    let committed : ConsensusState = record voted {
      commit_count = insert p.node_id true voted.commit_count;
      sent_commit = true;
    }
    (if leb (quorum p.total_nodes) (length voted.prepare_count) && not voted.sent_commit
        then (do
          modify (put_state msg.batch_hash committed)
          broadcast env (message commit msg.sequence msg.batch_hash p)
          modify (put_state msg.batch_hash (record committed { phase = commit })))
        else pure tt)

  unfoldable pub on_prepare : ConsensusMessage → ConsensusState → M Pbft (Unit {0})
  on_prepare msg state = if is_past_prepare state.phase then pure tt else do
    let voted : ConsensusState = record state {
      prepare_count = insert msg.node_id true state.prepare_count;
    }
    modify (put_state msg.batch_hash voted)
    maybe_commit msg voted

  -- what the leader does when a batch is decided
  unfoldable pub hand_over : M Pbft (Unit {0})
  hand_over = do
    p ← gets (λ p. p)
    next_leader ← or_panic (rotate_leader p)
    try_broadcast env
        (record (message leader_rotation p.sequence "" p) { next_leader = next_leader })
    modify (λ q. record q { is_leader = next_leader == q.node_id; view = u64 (q.view + 1) })

  -- the `case Commit`, from the count on
  unfoldable pub maybe_decide : ConsensusMessage → ConsensusState → M Pbft (Unit {0})
  maybe_decide msg voted = do
    p ← gets (λ p. p)
    (if leb (quorum p.total_nodes) (length voted.commit_count) && not voted.decided
        then (do
          modify (put_state msg.batch_hash (record voted { decided = true }))
          if p.is_leader then hand_over else pure tt
          modify (λ q. record q { decided_batch = q.decided_batch ++ voted.batch ∷ [] }))
        else pure tt)

  unfoldable pub on_commit : ConsensusMessage → ConsensusState → M Pbft (Unit {0})
  on_commit msg state = do
    let voted : ConsensusState = record state {
      commit_count = insert msg.node_id true state.commit_count;
    }
    modify (put_state msg.batch_hash voted)
    maybe_decide msg voted

  -- The state of the message's round; a pre-prepare message opens a new one.
  unfoldable pub find_or_create : ConsensusMessage → M Pbft ConsensusState
  find_or_create msg p = elim (lookup msg.batch_hash p.states) [
    | some state ↦ ok state p
    | none ↦
        let state : ConsensusState =
          record (new_consensus_state env.hash_batch msg.view msg.sequence msg.batch) {
            pre_prepare_msg = some msg;
          } in
        if is_pre_prepare msg.msg_type
        then ok state (put_state msg.batch_hash state p)
        else err unknown_batch p
  ]

  -- the last `switch`
  unfoldable pub dispatch : MessageType → ConsensusMessage → ConsensusState → M Pbft (Unit {0})
  dispatch pre_prepare msg state = on_pre_prepare msg state
  dispatch prepare msg state = on_prepare msg state
  dispatch commit msg state = on_commit msg state
  dispatch _ msg state = pure tt

  -- HandleMessage from the check of the view on
  unfoldable pub handle_round : ConsensusMessage → M Pbft (Unit {0})
  handle_round msg = do
    current ← gets (λ p. p.view)
    raise_if (not (msg.view == current)) wrong_view
    state ← find_or_create msg
    dispatch msg.msg_type msg state

  unfoldable pub handle_leader_rotation : ConsensusMessage → M Pbft (Unit {0})
  handle_leader_rotation msg =
      modify (λ p. record p { is_leader = msg.next_leader == p.node_id; view = u64 (msg.view + 1) })
