-- ===== src/Consensus/Rounds/Commits.antt =====
-- The case Commit: what a node does when it counts a commit message.
use zkrollup_go.Base.{
  ◌≡◌, refl, ap, ◌∙◌, ◌⊎◌, ◌+◌, [], ◌∷◌, ◌++◌, some, Bool, true, false, inl, inr, arith, insert,
  String, string_eq, ◌==◌, insert-insert, if◌then◌else◌, length, Bool-cases, leb, not, ◌&&◌,
}
use zkrollup_go.Outcome.{ok, pure, bind_ok}
use zkrollup_go.State.{u64}
use zkrollup_go.Consensus.Types.{ConsensusMessage, ConsensusState, leader_rotation, quorum}
use zkrollup_go.Consensus.Pbft.{
  Pbft, Environment, broadcast, try_broadcast, put_state, rotate_leader, message, is_known,
}
use zkrollup_go.Consensus.Pbft.Rotation.{rotate_leader-is_known}
use zkrollup_go.Consensus.Rounds.{hand_over, maybe_decide, on_commit}

module _ (env : Environment) where
  -- a node after the broadcast of its choice of the next leader
  abbrev handed_over : String → Pbft → Pbft
  handed_over next p =
      let msg : ConsensusMessage = record (message leader_rotation p.sequence "" p) {
        next_leader = next;
      } in
      record p {
        broadcasts = p.broadcasts ++ (msg, env.network p.broadcasts msg) ∷ [];
        is_leader = next == p.node_id;
        view = u64 (p.view + 1);
      }

  try_broadcast_lem :
      (msg : ConsensusMessage) (p : Pbft)
      → try_broadcast env msg p
        ≡ ok tt (record p { broadcasts = p.broadcasts ++ (msg, env.network p.broadcasts msg) ∷ [] })
  unfolding try_broadcast broadcast
  try_broadcast_lem msg p = ground arith

  hand_over_lem :
      (next : String) (p : Pbft)
      → rotate_leader p ≡ some next
      → hand_over env p ≡ ok tt (handed_over next p)
  unfolding hand_over
  hand_over_lem next p e = rw (e) (bind_ok p (try_broadcast env _) _ tt _ (try_broadcast_lem _ p))

-- The round's state with the vote of a commit message.
abbrev pub voted : ConsensusMessage → ConsensusState → ConsensusState
voted msg state = record state { commit_count = insert msg.node_id true state.commit_count }

-- The vote completes a quorum, and the round is not decided yet.
abbrev pub decides : Pbft → ConsensusMessage → ConsensusState → Bool
decides p msg state =
    leb (quorum p.total_nodes) (length (voted msg state).commit_count) && not state.decided

-- What a counted commit leaves: when it decides, the batch of the round is handed over once, and
-- the round is decided; else nothing but the vote is written.
abbrev pub Counted : Pbft → ConsensusMessage → ConsensusState → Pbft → Type 0
Counted p msg state q =
    (decides p msg state ≡ true)
      × (q.decided_batch ≡ p.decided_batch ++ state.batch ∷ [])
      × (q.states ≡ insert msg.batch_hash (record (voted msg state) { decided = true }) p.states)
      × (q.node_ids ≡ p.node_ids)
      × (q.node_id ≡ p.node_id)
    ⊎ (decides p msg state ≡ false) × (q ≡ put_state msg.batch_hash (voted msg state) p)

module _ (env : Environment) where
  lead_lem :
      (lead : Bool) (p : Pbft)
      → is_known p.node_id p.node_ids ≡ true
      → (q : Pbft) × ((if lead then hand_over env else pure tt) p ≡ ok tt q)
        × (q.states ≡ p.states)
        × (q.decided_batch ≡ p.decided_batch)
        × (q.node_ids ≡ p.node_ids)
        × (q.node_id ≡ p.node_id)
  lead_lem true p known =
      let (next, e, member) = rotate_leader-is_known p known in
      (handed_over env next p, hand_over_lem env next p e, refl, refl, refl, refl)
  lead_lem false p known = (p, refl, refl, refl, refl, refl)

  -- A node that knows itself handles every commit message of a known round without an error or a
  -- panic, and hands over the batch exactly when the vote completes a quorum of an undecided round.
  pub on_commit-Counted :
      (msg : ConsensusMessage) (state : ConsensusState) (p : Pbft)
      → is_known p.node_id p.node_ids ≡ true
      → (q : Pbft) × (on_commit env msg state p ≡ ok tt q) × Counted p msg state q
  unfolding on_commit maybe_decide put_state
  on_commit-Counted msg state p known = elim (Bool-cases (decides p msg state)) [
    | inl fires ↦
        let p1 : Pbft = put_state msg.batch_hash (voted msg state) p in
        let p2 : Pbft = put_state msg.batch_hash (record (voted msg state) { decided = true }) p1 in
        let (q, e, states, batches, nodes, same) = lead_lem p.is_leader p2 known in
        (
          record q { decided_batch = q.decided_batch ++ state.batch ∷ [] },
          rw (fires) (bind_ok p2 (if p.is_leader then hand_over env else pure tt) _ tt q e),
          inl (
            fires,
            ap (λ b. b ++ state.batch ∷ []) batches,
            states ∙ insert-insert msg.batch_hash _ _ p.states,
            nodes,
            same,
          ),
        )
    | inr waits ↦ (put_state msg.batch_hash (voted msg state) p, rw (waits), inr (waits, refl))
  ]
