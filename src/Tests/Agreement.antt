-- ===== src/Tests/Agreement.antt =====
-- The theorems about the consensus at concrete inputs.
use zkrollup_go.Base.{◌≡◌, refl, ◌⊎◌, ◌+◌, ◌*◌, ◌%◌, ◌≤◌, some, [], ◌∷◌, true, false, Bool, arith}
use zkrollup_go.Outcome.{ok, err, panic}
use zkrollup_go.Outcome.Frame.{Leaves}
use zkrollup_go.State.{Batch}
use zkrollup_go.Consensus.Ceremony.{no_temp_file, Tools}
use zkrollup_go.Consensus.Types.{
  ConsensusMessage, ConsensusState, pre_prepare, commit, new_consensus_state, quorum,
}
use zkrollup_go.Consensus.Types.Quorum.{faults, quorum_bounds}
use zkrollup_go.Consensus.Pbft.{
  Pbft, Environment, new_pbft, message, add_node_id, is_known, put_state, broadcast,
}
use zkrollup_go.Consensus.Crs.{
  start_crs_ceremony, handle_crs_ceremony_start, handle_crs_contribution,
  handle_crs_ceremony_complete,
}
use zkrollup_go.Consensus.Crs.Isolation.{IsLike, crs_handlers_isolated}
use zkrollup_go.Consensus.Rounds.{on_commit, on_pre_prepare, find_or_create, dispatch, handle_round}
use zkrollup_go.Consensus.Rounds.Commits.{Counted, on_commit-Counted}
use zkrollup_go.Consensus.Rounds.Decisions.{IsAccounted}
use zkrollup_go.Consensus.Handler.{handle_message, handle, handle_type}
use zkrollup_go.Consensus.Handler.Reachable.{start, receive, Reachable-IsAccounted}

-- tools that succeed at everything but the verification
abbrev pub snarkjs : Tools
snarkjs = record {
  create = λ path power. true;
  contribute = λ input output name entropy. true;
  read_file = λ path. some (1 ∷ []);
  write_file = λ path bytes. true;
  verify = λ bytes. no_temp_file;
  beacon = λ input output. true;
}

abbrev pub block : Batch
block = record { batch_number = 1; transactions = []; state_root = 0; timestamp = 7; proof = [] }

-- the node `a`, which knows `b`, `c` and `d` as well
abbrev pub node : Bool → Pbft
node is_leader = record (new_pbft "a" is_leader) {
  node_ids = "a" ∷ "b" ∷ "c" ∷ "d" ∷ [];
  total_nodes = 4;
}

abbrev pub opening : ConsensusMessage
opening = record (message pre_prepare 0 "h" (new_pbft "b" true)) { batch = some block }

-- an environment in which every broadcast succeeds and every message decodes to a pre-prepare one
abbrev pub net : Environment
net = record {
  hash_batch = λ batch. "h";
  decode = λ bytes. some opening;
  network = λ sent msg. true;
  entropy = λ id epoch. id;
  ceremony_dir = "crs";
  tools = snarkjs;
}

abbrev half_committed : ConsensusState
half_committed = record (new_consensus_state (λ batch. "h") 0 0 (some block)) {
  phase = commit;
  commit_count = ("a", true) ∷ ("b", true) ∷ [];
}

abbrev vote : ConsensusMessage
vote = message commit 0 "h" (new_pbft "c" false)

on_commit-Counted_example :
    (q : Pbft) × (on_commit net vote half_committed (node true) ≡ ok tt q)
    × Counted (node true) vote half_committed q
unfolding is_known new_pbft
on_commit-Counted_example = on_commit-Counted net vote half_committed (node true) refl

abbrev opened : Pbft
opened = elim (handle_message net (1 ∷ []) (new_pbft "a" false)) [
  | ok _ q ↦ q
  | err _ q ↦ q
  | panic ↦ new_pbft "a" false
]

Reachable-IsAccounted_example : IsAccounted 0 opened
unfolding handle_message handle handle_type handle_round find_or_create dispatch on_pre_prepare
    broadcast put_state add_node_id is_known new_pbft new_consensus_state
Reachable-IsAccounted_example =
    Reachable-IsAccounted net "a" false opened (receive (1 ∷ []) start (refl, λ e. cc))

quorum_bounds_example :
    (quorum 5 + faults 5 ≤ 5)
    × ((5 % 3 ≡ 0) × (2 * quorum 5 ≡ 5 + faults 5 + 3)
        ⊎ (5 % 3 ≡ 1) × (2 * quorum 5 ≡ 5 + faults 5 + 1)
        ⊎ (5 % 3 ≡ 2) × (2 * quorum 5 ≡ 5 + faults 5))
quorum_bounds_example = quorum_bounds 5 (omega arith)

crs_handlers_isolated_example :
    Leaves (IsLike net (node true)) (start_crs_ceremony net (node true))
    × Leaves (IsLike net (node true)) (handle_crs_ceremony_start net opening (node true))
    × Leaves (IsLike net (node true)) (handle_crs_contribution net opening (node true))
    × Leaves (IsLike net (node true)) (handle_crs_ceremony_complete net opening (node true))
crs_handlers_isolated_example = crs_handlers_isolated net opening (node true)
