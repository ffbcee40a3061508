-- ===== src/Tests/Rounds.antt =====
-- Rounds of the agreement at one node, message by message.
use zkrollup_go.Base.{
  ◌≡◌, refl, ◌∷◌, [], List, Option, none, some, true, false, inl, inr, String, arith, lookup,
  string_eq, Map, Bool, contains,
}
use zkrollup_go.State.{Batch}
use zkrollup_go.Consensus.Types.{
  ConsensusMessage, ConsensusState, prepare, commit, quorum, new_consensus_state,
}
use zkrollup_go.Consensus.Pbft.{
  Pbft, new_pbft, message, is_known, add_node_id, put_state, broadcast,
}
use zkrollup_go.Consensus.Rounds.{
  on_pre_prepare, on_prepare, on_commit, maybe_commit, maybe_decide, find_or_create, dispatch,
  handle_round,
}
use zkrollup_go.Consensus.Handler.{handle, handle_type}
use zkrollup_go.Consensus.Handler.Delivery.{deliver_all}
use zkrollup_go.Consensus.Handler.Agreement.{
  IsMember, join, deliver_all-Serving, decided_rounds_share,
}
use zkrollup_go.Consensus.Handler.Completion.{Ends, round-Completes}
use zkrollup_go.Tests.Agreement.{net, node, block, opening}

abbrev prepare_of : String → ConsensusMessage
prepare_of id = message prepare 0 "h" (new_pbft id false)

abbrev commit_of : String → ConsensusMessage
commit_of id = message commit 0 "h" (new_pbft id false)

-- commit messages that overtake the prepare messages
abbrev votes : List ConsensusMessage
votes = commit_of "c" ∷ prepare_of "c" ∷ commit_of "b" ∷ commit_of "d" ∷ []

round-Completes_example :
    (q : Pbft) × (deliver_all net (opening ∷ votes) (node false) ≡ some q)
    × Ends ("b" ∷ "c" ∷ "d" ∷ []) opening votes (node false) q
unfolding new_pbft is_known quorum
round-Completes_example =
    round-Completes net ("b" ∷ "c" ∷ "d" ∷ []) (node false) opening votes
      ((refl, (refl, tt)), ((refl, tt), (tt, tt))) (omega arith) refl refl refl refl refl
      (
        inr (refl, refl, refl, refl),
        (
          inl (refl, refl, refl, refl),
          (inr (refl, refl, refl, refl), (inr (refl, refl, refl, refl), tt)),
        ),
      )

-- one of three nodes
abbrev third : Pbft
third = record (new_pbft "a" false) { node_ids = "a" ∷ "b" ∷ "c" ∷ []; total_nodes = 3 }

abbrev votes_of : Option Pbft → Option (Map String Bool)
votes_of none = none
votes_of (some q) = elim (lookup "h" q.states) [
  | none ↦ none
  | some state ↦ some state.commit_count
]

abbrev handed_over : Option Pbft → List (Option Batch)
handed_over none = []
handed_over (some q) = q.decided_batch

-- The node's own vote completes the quorum of 3, and nothing is decided.
own_vote_last :
    let end =
      deliver_all net
        (opening ∷ commit_of "b" ∷ commit_of "c" ∷ prepare_of "b" ∷ prepare_of "c" ∷ [])
        third in
    (votes_of end ≡ some (("b", true) ∷ ("c", true) ∷ ("a", true) ∷ [])) × (handed_over end ≡ [])
unfolding deliver_all handle handle_type handle_round find_or_create dispatch on_pre_prepare
    on_prepare on_commit maybe_commit maybe_decide broadcast put_state add_node_id is_known new_pbft
    new_consensus_state quorum
own_vote_last = (refl, refl)

-- the same commit messages in another order, with one more
abbrev votes_again : List ConsensusMessage
votes_again = commit_of "d" ∷ commit_of "c" ∷ commit_of "a" ∷ []

abbrev node_after : Option Pbft → Pbft
node_after none = new_pbft "" false
node_after (some q) = q

abbrev state_of : Pbft → ConsensusState
state_of q = elim (lookup "h" q.states) [
  | none ↦ new_consensus_state (λ batch. "") 0 0 none
  | some state ↦ state
]

abbrev members : List String
members = "a" ∷ "b" ∷ "c" ∷ "d" ∷ []

-- the node of the name, of four, before its first round
abbrev of_four : String → Pbft
of_four id = record (new_pbft id false) { node_ids = members; total_nodes = 4 }

-- where two of the four have got by their messages
abbrev first : Pbft
first = node_after (deliver_all net (opening ∷ votes) (of_four "a"))

abbrev second : Pbft
second = node_after (deliver_all net (opening ∷ votes_again) (of_four "b"))

member : (id : String) → is_known id members ≡ true → IsMember members (of_four id)
unfolding new_pbft
member id known = record { total = refl; nodes = λ other. refl; itself = known; unused = refl }

decided_rounds_share_example :
    (id : String) × (contains id (state_of first).commit_count ≡ true)
    × (contains id (state_of second).commit_count ≡ true)
    × (is_known id ("d" ∷ []) ≡ false)
unfolding deliver_all handle handle_type handle_round find_or_create dispatch on_pre_prepare
    on_prepare on_commit maybe_commit maybe_decide broadcast put_state add_node_id is_known new_pbft
    new_consensus_state quorum
decided_rounds_share_example =
    decided_rounds_share members net net first second "h" "h" (state_of first) (state_of second)
      ("d" ∷ []) ((refl, (refl, (refl, tt))), ((refl, (refl, tt)), ((refl, tt), (tt, tt))))
      (omega arith) (λ e. omega (arith, e)) (omega arith)
      (deliver_all-Serving net members (opening ∷ votes) (of_four "a") first
        (join (member "a" refl)) ((refl, (refl, (refl, (refl, (refl, tt)))))) refl)
      (deliver_all-Serving net members (opening ∷ votes_again) (of_four "b") second
        (join (member "b" refl)) ((refl, (refl, (refl, (refl, tt))))) refl)
      (refl, refl) (refl, refl)

-- another batch with the same sequence number
abbrev other_block : Batch
other_block = record block { batch_number = 2 }

abbrev opening_other : ConsensusMessage
opening_other = record opening { batch_hash = "k"; batch = some other_block }

abbrev commit_other : String → ConsensusMessage
commit_other id = message commit 0 "k" (new_pbft id false)

-- One node decides two batches of one view and one sequence number, with votes of the same nodes.
one_number_twice :
    handed_over (
      deliver_all net
        (opening
          ∷ opening_other
          ∷ commit_of "b"
          ∷ commit_other "b"
          ∷ commit_of "c"
          ∷ commit_other "c"
          ∷ commit_of "d"
          ∷ commit_other "d"
          ∷ [])
        (of_four "a"))
    ≡ some block ∷ some other_block ∷ []
unfolding deliver_all handle handle_type handle_round find_or_create dispatch on_pre_prepare
    on_prepare on_commit maybe_commit maybe_decide broadcast put_state add_node_id is_known new_pbft
    new_consensus_state quorum
one_number_twice = refl
