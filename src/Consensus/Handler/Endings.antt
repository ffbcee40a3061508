-- ===== src/Consensus/Handler/Endings.antt =====
-- pkg/consensus/pbft.go, HandleMessage: what a commit message of a round does at a node that waits
-- for votes, or has handed over the batch.
use zkrollup_go.Base.{
  ◌≡◌, refl, sym, ap, ◌∙◌, ◌≤◌, ◌⊎◌, inl, inr, List, [], ◌∷◌, ◌++◌, Option, some, true, false,
  String, Map, lookup, insert, lookup-insert, eqb_refl, length, string_eq, ◌==◌, nat_eq, Bool-cases,
  arith,
}
use zkrollup_go.Outcome.Returns.{Reaches}
use zkrollup_go.State.{Batch}
use zkrollup_go.Consensus.Types.{
  MessageType, ConsensusMessage, ConsensusState, prepare, commit, quorum,
}
use zkrollup_go.Consensus.Pbft.{Pbft, Environment, put_state, is_known}
use zkrollup_go.Consensus.Rounds.Commits.{Counted, voted, on_commit-Counted}
use zkrollup_go.Consensus.Rounds.Voters.{
  AreDistinct, HaveVoted, distinct_voters, contains-insert, HaveVoted-insert,
}
use zkrollup_go.Consensus.Rounds.Votes.{outside_round, IsIn}
use zkrollup_go.Consensus.Handler.{handle}
use zkrollup_go.Consensus.Handler.Delivery.{AreAmong, HaveVoted-AreAmong}
use zkrollup_go.Consensus.Handler.Votes.{handle_commit}

put_found :
    (at hash : String) (state : ConsensusState) (states : Map String ConsensusState)
    → at ≡ hash
    → lookup hash (insert at state states) ≡ some state
put_found at hash state states same =
    ground (arith, lookup-insert at hash state states, string_eq.eqb_iff at hash, same)

-- The batch has been handed over once since `p`, and its round is decided.
abbrev pub IsDone : String → Option Batch → Pbft → Pbft → Type 0
IsDone hash batch p q =
    (q.node_ids ≡ p.node_ids)
    × (q.node_id ≡ p.node_id)
    × (q.decided_batch ≡ p.decided_batch ++ batch ∷ [])
    × ((state : ConsensusState) × (lookup hash q.states ≡ some state) × (state.decided ≡ true))

-- The round waits for the commit message of one of the nodes.
abbrev pub IsWaiting : String → Option Batch → List String → Pbft → List String → Pbft → Type 0
IsWaiting hash batch ids p seen q = IsIn hash batch false seen p q × (AreAmong seen ids → ⊥)

abbrev pub IsVoteOf : MessageType → String → Pbft → ConsensusMessage → Type 0
IsVoteOf kind hash p msg =
    (msg.msg_type ≡ kind)
    × (msg.batch_hash ≡ hash)
    × (msg.view ≡ p.view)
    × (is_known msg.node_id p.node_ids ≡ true)

-- A prepare or a commit message of the round, of the node's view and from a node that it knows.
abbrev pub IsVote : String → Pbft → ConsensusMessage → Type 0
IsVote hash p msg = IsVoteOf prepare hash p msg ⊎ IsVoteOf commit hash p msg

module _ (env : Environment) (hash : String) (batch : Option Batch) (ids : List String) (p : Pbft)
    (distinct : AreDistinct ids) (enough : quorum p.total_nodes ≤ length ids)
    (itself : is_known p.node_id p.node_ids ≡ true) where
  abbrev Ended : Pbft → Type 0
  Ended = IsDone hash batch p

  abbrev Waits : List String → Pbft → Type 0
  Waits = IsWaiting hash batch ids p

  Counted-IsWaiting :
      (msg : ConsensusMessage) (state : ConsensusState) (seen : List String) (q q' : Pbft)
      → msg.batch_hash ≡ hash
      → outside_round q ≡ outside_round p
      → state.batch ≡ batch
      → state.decided ≡ false
      → HaveVoted state.commit_count seen
      → Counted q msg state q'
      → Ended q' ⊎ Waits (msg.node_id ∷ seen) q'
  unfolding put_state
  Counted-IsWaiting msg state seen q q' same_hash out sb sd votes
        (inl (fires, batches, states, nodes, same)) =
      inl (
        nodes ∙ ap (λ r. r.node_ids) out,
        same ∙ ap (λ r. r.node_id) out,
        batches
            ∙ ap (λ r. r.decided_batch ++ state.batch ∷ []) out
            ∙ ap (λ b. p.decided_batch ++ b ∷ []) sb,
        (
          record (voted msg state) { decided = true },
          ap (lookup hash) states
              ∙ put_found msg.batch_hash hash (record (voted msg state) { decided = true }) q.states
                  same_hash,
          refl,
        ),
      )
  Counted-IsWaiting msg state seen q q' same_hash out sb sd votes (inr (waits, same)) =
      let counted : HaveVoted (voted msg state).commit_count (msg.node_id ∷ seen) = (
        ground (
          arith,
          contains-insert msg.node_id msg.node_id state.commit_count,
          eqb_refl msg.node_id,
        ),
        HaveVoted-insert seen msg.node_id state.commit_count votes,
      ) in
      inr (
        rw (same) (
          out,
          (
            voted msg state,
            put_found msg.batch_hash hash (voted msg state) q.states same_hash,
            sb,
            sd,
            counted,
          ),
        ),
        λ among.
            let fits = distinct_voters ids (voted msg state).commit_count distinct (
              HaveVoted-AreAmong (voted msg state).commit_count (msg.node_id ∷ seen) ids counted
                among) in
            let total : q.total_nodes ≡ p.total_nodes = ap (λ r. r.total_nodes) out in
            let votes_asked : quorum q.total_nodes ≡ quorum p.total_nodes = ap quorum total in
            ground (arith, fits, votes_asked, enough, sd, waits),
      )

  Counted-IsDone :
      (msg : ConsensusMessage) (state : ConsensusState) (q q' : Pbft)
      → msg.batch_hash ≡ hash
      → q.node_ids ≡ p.node_ids
      → q.node_id ≡ p.node_id
      → q.decided_batch ≡ p.decided_batch ++ batch ∷ []
      → state.decided ≡ true
      → Counted q msg state q'
      → Ended q'
  unfolding put_state
  Counted-IsDone msg state q q' same_hash nodes same_id batches decided (inl (fires, _, _, _, _)) =
      absurd (ground arith)
  Counted-IsDone msg state q q' same_hash nodes same_id batches decided (inr (waits, same)) =
      rw (same) (
        nodes,
        same_id,
        batches,
        (
          voted msg state,
          put_found msg.batch_hash hash (voted msg state) q.states same_hash,
          decided,
        ),
      )

  pub commit-IsWaiting :
      (msg : ConsensusMessage) (seen : List String) (q : Pbft)
      → IsVoteOf commit hash p msg
      → Waits seen q
      → Reaches (λ q'. Ended q' ⊎ Waits (msg.node_id ∷ seen) q') (handle env msg q)
  commit-IsWaiting msg seen q (kind, same_hash, same_view, known)
        ((out, (state, found, sb, sd, votes)), waits) =
      let here : lookup msg.batch_hash q.states ≡ some state =
        ap (λ h. lookup h q.states) same_hash ∙ found in
      let known_here : is_known msg.node_id q.node_ids ≡ true =
        ap (λ r. is_known msg.node_id r.node_ids) out ∙ known in
      let same : (msg.view == q.view) ≡ true =
        (nat_eq.eqb_iff msg.view q.view).1 (same_view ∙ sym (ap (λ r. r.view) out)) in
      let (q', e, counted) =
        on_commit-Counted env msg state q (ap (λ r. is_known r.node_id r.node_ids) out ∙ itself) in
      rw (handle_commit env msg state q known_here here kind, same, e)
        (Counted-IsWaiting msg state seen q q' same_hash out sb sd votes counted)

  pub commit-IsDone :
      (msg : ConsensusMessage) (q : Pbft)
      → IsVoteOf commit hash p msg
      → Ended q
      → Reaches Ended (handle env msg q)
  commit-IsDone msg q (kind, same_hash, same_view, known)
        (nodes, same_id, batches, (state, found, decided)) =
      let here : lookup msg.batch_hash q.states ≡ some state =
        ap (λ h. lookup h q.states) same_hash ∙ found in
      let known_here : is_known msg.node_id q.node_ids ≡ true =
        ap (is_known msg.node_id) nodes ∙ known in
      let itself_here : is_known q.node_id q.node_ids ≡ true =
        ap (is_known q.node_id) nodes ∙ ap (λ id. is_known id p.node_ids) same_id ∙ itself in
      let (q', e, counted) = on_commit-Counted env msg state q itself_here in
      rw (handle_commit env msg state q known_here here kind)
        (elim (Bool-cases (msg.view == q.view)) [
          | inr other ↦ rw (other) (nodes, same_id, batches, (state, found, decided))
          | inl same ↦
              rw (same, e)
                (Counted-IsDone msg state q q' same_hash nodes same_id batches decided counted)
        ])
