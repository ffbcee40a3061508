-- ===== src/Consensus/Handler/Completion.antt =====
-- pkg/consensus/pbft.go, HandleMessage: how a round ends at one node that gets its votes in any
-- order.
use zkrollup_go.Base.{
  ◌≡◌, refl, ap, ◌∙◌, ◌≤◌, ◌⊎◌, inl, inr, List, [], ◌∷◌, Option, none, some, true, false, String,
  lookup, All, length, string_eq, nat_eq, arith,
}
use zkrollup_go.Outcome.Returns.{Reaches, Reaches-weaken}
use zkrollup_go.State.{Batch}
use zkrollup_go.Consensus.Types.{
  ConsensusMessage, ConsensusState, pre_prepare, prepare, commit, quorum,
}
use zkrollup_go.Consensus.Pbft.{Pbft, Environment, is_known}
use zkrollup_go.Consensus.Rounds.Voters.{AreDistinct}
use zkrollup_go.Consensus.Rounds.Votes.{IsIn}
use zkrollup_go.Consensus.Handler.{handle}
use zkrollup_go.Consensus.Handler.Delivery.{
  AreAmong, committers, committers_prepare, committers_commit, AreCovered, AreCovered-seen,
  AreCovered-left, AreCovered-move, AreAmong-nil, deliver_all, go_on,
}
use zkrollup_go.Consensus.Handler.Votes.{prepare_step, opening_step}
use zkrollup_go.Consensus.Handler.Endings.{
  IsDone, IsWaiting, IsVote, commit-IsWaiting, commit-IsDone,
}

module _ (env : Environment) (hash : String) (batch : Option Batch) (ids : List String) (p : Pbft)
    (distinct : AreDistinct ids) (enough : quorum p.total_nodes ≤ length ids)
    (itself : is_known p.node_id p.node_ids ≡ true) where
  abbrev Ended : Pbft → Type 0
  Ended = IsDone hash batch p

  abbrev Waits : List String → Pbft → Type 0
  Waits = IsWaiting hash batch ids p

  IsIn-IsDone :
      (q q' : Pbft)
      → Ended q
      → (state : ConsensusState) → IsIn hash state.batch true [] q q'
      → Ended q'
  IsIn-IsDone q q' (nodes, same_id, batches, _) state (out, (state', found, _, decided, _)) = (
    ap (λ r. r.node_ids) out ∙ nodes,
    ap (λ r. r.node_id) out ∙ same_id,
    ap (λ r. r.decided_batch) out ∙ batches,
    (state', found, decided),
  )

  vote-IsDone :
      (msg : ConsensusMessage) (q : Pbft)
      → IsVote hash p msg
      → Ended q
      → Reaches Ended (handle env msg q)
  vote-IsDone msg q (inr vote) done =
      commit-IsDone env hash batch ids p distinct enough itself msg q vote done
  vote-IsDone msg q (inl (kind, same_hash, _, known)) done =
      let (nodes, _, _, (state, found, decided)) = done in
      Reaches-weaken (handle env msg q) (λ q' h. IsIn-IsDone q q' done state h)
        (prepare_step env hash state.batch true [] q msg q kind same_hash
          (ap (is_known msg.node_id) nodes ∙ known) (refl, (state, found, refl, decided, tt)))

  deliver_all-IsDone :
      (msgs : List ConsensusMessage) (q : Pbft)
      → All (IsVote hash p) msgs
      → Ended q
      → (q' : Pbft) × (deliver_all env msgs q ≡ some q') × Ended q'
  unfolding deliver_all
  deliver_all-IsDone [] q votes done = (q, refl, done)
  deliver_all-IsDone (msg ∷ msgs) q votes done =
      go_on env msgs (handle env msg q) Ended Ended (λ q' h. deliver_all-IsDone msgs q' votes.1 h)
        (vote-IsDone msg q votes.0 done)

  -- The round is done; or it is undecided, nothing is handed over, and some node is left.
  abbrev Stands : List String → List ConsensusMessage → Pbft → Type 0
  Stands seen msgs q =
      Ended q ⊎ IsIn hash batch false [] p q × (AreCovered seen (committers msgs) ids → ⊥)

  Stands-prepare :
      (seen : List String) (msg : ConsensusMessage) (msgs : List ConsensusMessage) (q : Pbft)
      → msg.msg_type ≡ prepare
      → Stands seen msgs q
      → Stands seen (msg ∷ msgs) q
  Stands-prepare seen msg msgs q kind (inl done) = inl done
  Stands-prepare seen msg msgs q kind (inr (h, left)) =
      inr (h, λ c. left (rw (committers_prepare msg msgs kind) at c))

  Stands-commit :
      (seen : List String) (msg : ConsensusMessage) (msgs : List ConsensusMessage) (q : Pbft)
      → msg.msg_type ≡ commit
      → Stands (msg.node_id ∷ seen) msgs q
      → Stands seen (msg ∷ msgs) q
  Stands-commit seen msg msgs q kind (inl done) = inl done
  Stands-commit seen msg msgs q kind (inr (h, left)) = inr (
    h,
    λ c. left (
        AreCovered-move seen (committers msgs) msg.node_id ids
          (rw (committers_commit msg msgs kind) at c)),
  )

  IsIn-nil :
      (seen : List String) (q : Pbft)
      → IsIn hash batch false seen p q
      → IsIn hash batch false [] p q
  IsIn-nil seen q (out, (state, found, same_batch, same, _)) =
      (out, (state, found, same_batch, same, tt))

  deliver_all-Stands :
      (msgs : List ConsensusMessage) (seen : List String) (q : Pbft)
      → All (IsVote hash p) msgs
      → Ended q ⊎ Waits seen q
      → (q' : Pbft) × (deliver_all env msgs q ≡ some q') × Stands seen msgs q'
  unfolding deliver_all committers
  deliver_all-Stands msgs seen q votes (inl done) =
      let (q', run, done') = deliver_all-IsDone msgs q votes done in (q', run, inl done')
  deliver_all-Stands [] seen q votes (inr waits) = (
    q,
    refl,
    inr (IsIn-nil seen q waits.0, λ covered. waits.1 (AreCovered-seen seen ids covered)),
  )
  deliver_all-Stands (msg ∷ msgs) seen q votes (inr waits) = elim votes.0 [
    | inl (kind, same_hash, same_view, known) ↦
        go_on env msgs (handle env msg q) (IsIn hash batch false seen p) (Stands seen (msg ∷ msgs))
          (λ q' h.
            let (r, run, stands) = deliver_all-Stands msgs seen q' votes.1 (inr (h, waits.1)) in
            (r, run, Stands-prepare seen msg msgs r kind stands))
          (prepare_step env hash batch false seen p msg q kind same_hash
            (ap (λ r. is_known msg.node_id r.node_ids) waits.0.0 ∙ known) waits.0)
    | inr vote ↦
        go_on env msgs (handle env msg q) (λ q'. Ended q' ⊎ Waits (msg.node_id ∷ seen) q')
          (Stands seen (msg ∷ msgs))
          (λ q' h.
            let (r, run, stands) = deliver_all-Stands msgs (msg.node_id ∷ seen) q' votes.1 h in
            (r, run, Stands-commit seen msg msgs r vote.0 stands))
          (commit-IsWaiting env hash batch ids p distinct enough itself msg seen q vote waits)
  ]

-- The round is done; or it is undecided, nothing is handed over, and one of the nodes has not sent a
-- commit message.
abbrev pub Ends : List String → ConsensusMessage → List ConsensusMessage → Pbft → Pbft → Type 0
Ends ids opening votes p q =
    IsDone opening.batch_hash opening.batch p q
    ⊎ IsIn opening.batch_hash opening.batch false [] p q × (AreAmong (committers votes) ids → ⊥)

-- Given distinct names, enough for a quorum, whether their nodes vote or not: a node that knows
-- itself, and gets the pre-prepare message of an unknown batch and then, in any order, any prepare
-- and commit messages for it, all of its view and from nodes that it knows, never panics, whatever
-- broadcasts of its own have failed. It ends with the batch handed over exactly once and the round
-- decided; or one of the names is on no commit message, nothing is handed over and the round is
-- undecided.
pub round-Completes :
    (env : Environment) (ids : List String) (p : Pbft) (opening : ConsensusMessage)
    (votes : List ConsensusMessage)
    → AreDistinct ids
    → quorum p.total_nodes ≤ length ids
    → is_known p.node_id p.node_ids ≡ true
    → opening.msg_type ≡ pre_prepare
    → opening.view ≡ p.view
    → is_known opening.node_id p.node_ids ≡ true
    → lookup opening.batch_hash p.states ≡ none
    → All (IsVote opening.batch_hash p) votes
    → (q : Pbft) × (deliver_all env (opening ∷ votes) p ≡ some q) × Ends ids opening votes p q
unfolding deliver_all quorum
round-Completes env ids p opening votes distinct enough itself kind view known missing are_votes =
    let hash = opening.batch_hash in
    go_on env votes (handle env opening p) (IsIn hash opening.batch false [] p)
      (Ends ids opening votes p)
      (λ q h.
        let (r, run, stands) =
          deliver_all-Stands env hash opening.batch ids p distinct enough itself votes [] q
            are_votes (inr (h, λ none_left. omega (arith, enough, AreAmong-nil ids none_left))) in
        (
          r,
          run,
          elim stands [
            | inl done ↦ inl done
            | inr (waits, left) ↦
                inr (waits, λ among. left (AreCovered-left (committers votes) ids among))
          ],
        ))
      (opening_step env opening p kind view known missing)

-- So where a quorum of distinct nodes is among the senders of the commit messages, the batch is
-- handed over exactly once and the round is decided.
quorum-IsDone :
    (ids : List String) (p q : Pbft) (opening : ConsensusMessage) (votes : List ConsensusMessage)
    → Ends ids opening votes p q
    → AreAmong (committers votes) ids
    → IsDone opening.batch_hash opening.batch p q
quorum-IsDone ids p q opening votes (inl done) among = done
quorum-IsDone ids p q opening votes (inr (_, left)) among = absurd (left among)
