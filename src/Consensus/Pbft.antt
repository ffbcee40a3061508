-- ===== src/Consensus/Pbft.antt =====
-- pkg/consensus/pbft.go: one node of the consensus. A handler is one step: the locks and the
-- goroutines do not appear. What a node does to the outside is kept in its state, in order: the
-- messages that it broadcast, each with its success, and the batches that it sent to the channel
-- `decidedBatch`. The node's environment is the parameter `Environment`.
pub mod Rotation
pub mod Proposal
use zkrollup_go.Base.{
  ℕ, suc, ◌+◌, ◌%◌, List, [], ◌∷◌, ◌++◌, Option, none, some, String, Map, insert, Bool, true, false,
  not, ◌||◌, leb, if◌then◌else◌, length, get_elem?, ◌==◌, string_eq, nat_eq,
}
use zkrollup_go.Base.Text.{sort_strings}
use zkrollup_go.Outcome.{
  M, ok, err, panic, gets, raise_if, modify, ◌>>=◌, ◌>>◌, broadcast_failed, not_leader,
}
use zkrollup_go.State.{Batch, u64}
use zkrollup_go.Consensus.Types.{
  MessageType, ConsensusMessage, ConsensusState, new_consensus_state, pre_prepare, prepare,
}
use zkrollup_go.Consensus.Ceremony.{PTauCeremonyState, Tools}

pub record Pbft : Type 0 where
  pub node_id : String
  pub view : ℕ
  pub sequence : ℕ
  pub states : Map String ConsensusState
  pub is_leader : Bool
  pub total_nodes : ℕ
  pub node_ids : List String
  pub ptau_state : Option PTauCeremonyState
  pub current_epoch : ℕ
  pub ceremony_signals : ℕ
  pub broadcasts : List (ConsensusMessage × Bool)
  pub decided_batch : List (Option Batch)

-- The hash of a batch, the decoder of messages, whether a broadcast after the given ones succeeds,
-- the entropy of the next contribution, and the tools of the ceremony.
pub record Environment : Type 0 where
  pub hash_batch : Option Batch → String
  pub decode : List ℕ → Option ConsensusMessage
  pub network : List (ConsensusMessage × Bool) → ConsensusMessage → Bool
  pub entropy : String → ℕ → String
  pub ceremony_dir : String
  pub tools : Tools

-- `NewPBFT`
unfoldable pub new_pbft : String → Bool → Pbft
new_pbft node_id is_leader = record {
  node_id = node_id;
  view = 0;
  sequence = 0;
  states = [];
  is_leader = is_leader;
  total_nodes = 1;
  node_ids = node_id ∷ [];
  ptau_state = none;
  current_epoch = 0;
  ceremony_signals = 0;
  broadcasts = [];
  decided_batch = [];
}

unfoldable pub update_total_nodes : ℕ → Pbft → Pbft
update_total_nodes count p = record p { total_nodes = count }

-- the loop of `addNodeID`
unfoldable pub is_known : String → List String → Bool
is_known node_id [] = false
is_known node_id (id ∷ ids) = id == node_id || is_known node_id ids

unfoldable pub add_node_id : String → Pbft → Pbft
unfolding is_known
add_node_id node_id p = if is_known node_id p.node_ids then p else record p {
  node_ids = p.node_ids ++ node_id ∷ [];
  total_nodes = length (p.node_ids ++ node_id ∷ []);
}

-- the loop that looks for the current leader's position
unfoldable pub position : String → List String → Option ℕ
position id [] = none
position id (x ∷ xs) =
    if x == id then some 0 else elim (position id xs) [ none ↦ none | some k ↦ some (suc k) ]

abbrev next_position : Option ℕ → ℕ → ℕ
next_position none n = 0
next_position (some k) n = (k + 1) % n

-- `rotateLeader`; `none` is an index out of range, which an empty list of nodes would give.
unfoldable pub rotate_leader : Pbft → Option String
unfolding position
rotate_leader p =
    let sorted = sort_strings p.node_ids in
    get_elem? sorted (next_position (position p.node_id sorted) (length sorted))

-- A message of this node without the fields that only some kinds fill.
abbrev pub message : MessageType → ℕ → String → Pbft → ConsensusMessage
message kind sequence batch_hash p = record {
  msg_type = kind;
  view = p.view;
  sequence = sequence;
  batch_hash = batch_hash;
  node_id = p.node_id;
  batch = none;
  next_leader = "";
  epoch_number = 0;
  ptau_file_data = [];
  contribution_msg = none;
  participants = [];
}

-- Writes the state of a round through the pointer that the map holds.
unfoldable pub put_state : String → ConsensusState → Pbft → Pbft
put_state hash state p = record p { states = insert hash state p.states }

module _ (env : Environment) where
  -- `broadcast`
  unfoldable pub broadcast : ConsensusMessage → M Pbft (Unit {0})
  broadcast msg p =
      let sent = env.network p.broadcasts msg in
      let p' : Pbft = record p { broadcasts = p.broadcasts ++ (msg, sent) ∷ [] } in
      if sent then ok tt p' else err broadcast_failed p'

  -- A broadcast whose error is logged only.
  unfoldable pub try_broadcast : ConsensusMessage → M Pbft (Unit {0})
  unfolding broadcast
  try_broadcast msg p = elim (broadcast msg p) [
    | ok _ p' ↦ ok tt p'
    | err _ p' ↦ ok tt p'
    | panic ↦ panic
  ]

  -- `ProposeBatch`
  unfoldable pub propose_batch : Batch → M Pbft (Unit {0})
  propose_batch batch = do
    p ← gets (λ p. p)
    raise_if (not p.is_leader) not_leader
    let state = new_consensus_state env.hash_batch p.view p.sequence (some batch)
    modify (put_state state.batch_hash state)
    broadcast (record (message pre_prepare p.sequence state.batch_hash p) { batch = some batch })
    let standalone = leb p.total_nodes 1
    let state' =
        (if standalone then record state { commit_count = insert p.node_id true [] } else state)
    modify (λ q.
        if standalone
        then record (put_state state.batch_hash state' q) {
          decided_batch = q.decided_batch ++ some batch ∷ [];
        }
        else q)
    modify (put_state state.batch_hash (record state' { prepare_count = insert p.node_id true [] }))
    try_broadcast (message prepare p.sequence state.batch_hash p)
    modify (λ q. record q { sequence = u64 (q.sequence + 1) })
