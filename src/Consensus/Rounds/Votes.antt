-- ===== src/Consensus/Rounds/Votes.antt =====
-- What a prepare message leaves alone at a node whose round is open.
use zkrollup_go.Base.{
  ◌≡◌, List, [], Option, some, Bool, String, lookup, lookup-insert, eqb_refl, string_eq, nat_eq,
  arith,
}
use zkrollup_go.Outcome.{modify}
use zkrollup_go.Outcome.Frame.{Keeps, keeps}
use zkrollup_go.Outcome.Returns.{Returns, returns, Reaches, Leaves-Reaches}
use zkrollup_go.State.{Batch}
use zkrollup_go.Consensus.Types.{ConsensusMessage, ConsensusState}
use zkrollup_go.Consensus.Pbft.{Pbft, Environment, broadcast, put_state}
use zkrollup_go.Consensus.Rounds.{on_pre_prepare, maybe_commit, on_prepare}
use zkrollup_go.Consensus.Rounds.Voters.{HaveVoted, HaveVoted-insert}

-- The part of a node that a message of an open round leaves alone.
abbrev pub outside_round : Pbft → Pbft
outside_round q = record q { states = []; broadcasts = [] }

-- The node is like `r` but for its rounds; the round of the hash is for the batch, decided or not as
-- `d` says, and has the votes of the nodes.
abbrev pub IsIn : String → Option Batch → Bool → List String → Pbft → Pbft → Type 0
IsIn hash batch d seen r q =
    (outside_round q ≡ outside_round r)
    × ((state : ConsensusState) × (lookup hash q.states ≡ some state)
        × (state.batch ≡ batch)
        × (state.decided ≡ d)
        × HaveVoted state.commit_count seen)

module _ (env : Environment) (hash : String) (batch : Option Batch) (d : Bool) (seen : List String)
    (r : Pbft) where
  broadcast-IsIn : (msg : ConsensusMessage) → Keeps (IsIn hash batch d seen r) (broadcast env msg)
  unfolding broadcast
  broadcast-IsIn msg = record { run = λ q h. ground arith }

  put-IsIn :
      (state : ConsensusState)
      → state.batch ≡ batch
      → state.decided ≡ d
      → HaveVoted state.commit_count seen
      → Keeps (IsIn hash batch d seen r) (modify (put_state hash state))
  unfolding put_state
  put-IsIn state same_batch same votes = record {
    run = λ q h. (
      h.0,
      (
        state,
        ground (arith, lookup-insert hash hash state q.states, eqb_refl hash),
        same_batch,
        same,
        votes,
      ),
    );
  }

  ruleset inside = (keeps, broadcast-IsIn, put-IsIn, HaveVoted-insert)

module _ (env : Environment) (msg : ConsensusMessage) (state : ConsensusState) (seen : List String)
    (r : Pbft) (votes : HaveVoted state.commit_count seen) where
  abbrev In : Pbft → Type 0
  In = IsIn msg.batch_hash state.batch state.decided seen r

  maybe_commit-IsIn :
      (counted : ConsensusState)
      → counted.batch ≡ state.batch
      → counted.decided ≡ state.decided
      → HaveVoted counted.commit_count seen
      → Keeps In (maybe_commit env msg counted)
  unfolding maybe_commit
  maybe_commit-IsIn counted same_batch same votes = search inside depth 14

  on_prepare-IsIn : Keeps In (on_prepare env msg state)
  unfolding on_prepare
  on_prepare-IsIn = search (inside, maybe_commit-IsIn) depth 14

  broadcast-Returns : (out : ConsensusMessage) → Returns (broadcast env out)
  unfolding broadcast
  broadcast-Returns out = record { run = λ q e. ground arith }

  on_prepare-Returns : Returns (on_prepare env msg state)
  unfolding on_prepare maybe_commit
  on_prepare-Returns = search (returns, broadcast-Returns) depth 14

  pub on_prepare_lem : (q : Pbft) → In q → Reaches In (on_prepare env msg state q)
  on_prepare_lem q h =
      Leaves-Reaches In (on_prepare env msg state q) (on_prepare-IsIn.run q h)
        (on_prepare-Returns.run q)

  on_pre_prepare-IsIn : Keeps In (on_pre_prepare env msg state)
  unfolding on_pre_prepare
  on_pre_prepare-IsIn = search inside depth 14

  on_pre_prepare-Returns : Returns (on_pre_prepare env msg state)
  unfolding on_pre_prepare
  on_pre_prepare-Returns = search (returns, broadcast-Returns) depth 14

  pub on_pre_prepare_lem : (q : Pbft) → In q → Reaches In (on_pre_prepare env msg state q)
  on_pre_prepare_lem q h =
      Leaves-Reaches In (on_pre_prepare env msg state q) (on_pre_prepare-IsIn.run q h)
        (on_pre_prepare-Returns.run q)
