-- ===== src/Consensus/Types.antt =====
-- pkg/consensus/types.go: the messages and the state of a round. An int64 that is only compared
-- and counted up (views, sequence and epoch numbers) is the number of its 64 bits. Timestamps and
-- signatures, which no handler reads, are left out.
pub mod Quorum
use zkrollup_go.Base.{
  ℕ, suc, ◌+◌, ◌-◌, ◌*◌, ◌/◌, List, [], Option, none, some, String, Map, Bool, true, false, leb,
}
use zkrollup_go.Base.Int.{ℤ}
use zkrollup_go.State.{Batch}
use zkrollup_go.Consensus.Ceremony.{PTauContributionMessage}

-- `unknown` is any number that names no type; it may come off the network.
pub data MessageType : Type 0 where
  pre_prepare prepare commit view_change leader_rotation : MessageType
  crs_ceremony_start crs_contribution crs_ceremony_complete unknown : MessageType

-- `MessageType.String`
unfoldable pub to_string : MessageType → String
to_string pre_prepare = "PrePrepare"
to_string prepare = "Prepare"
to_string commit = "Commit"
to_string view_change = "ViewChange"
to_string leader_rotation = "LeaderRotation"
to_string crs_ceremony_start = "CRSCeremonyStart"
to_string crs_contribution = "CRSContribution"
to_string crs_ceremony_complete = "CRSCeremonyComplete"
to_string unknown = "Unknown"

-- `t == PrePrepare`
abbrev pub is_pre_prepare : MessageType → Bool
is_pre_prepare pre_prepare = true
is_pre_prepare _ = false

-- `t > Prepare`
abbrev pub is_past_prepare : MessageType → Bool
is_past_prepare pre_prepare = false
is_past_prepare prepare = false
is_past_prepare _ = true

pub record ConsensusMessage : Type 0 where
  pub msg_type : MessageType
  pub view : ℕ
  pub sequence : ℕ
  pub batch_hash : String
  pub node_id : String
  pub batch : Option Batch
  pub next_leader : String
  pub epoch_number : ℕ
  pub ptau_file_data : List ℕ
  pub contribution_msg : Option PTauContributionMessage
  pub participants : List String

pub record ConsensusState : Type 0 where
  pub view : ℕ
  pub sequence : ℕ
  pub phase : MessageType
  pub prepare_count : Map String Bool
  pub commit_count : Map String Bool
  pub batch : Option Batch
  pub batch_hash : String
  pub decided : Bool
  pub sent_commit : Bool
  pub pre_prepare_msg : Option ConsensusMessage

-- The hash of the batch's JSON, in hexadecimal, is a parameter. Both ways through the function,
-- with and without the special nonces, end in the same fields.
unfoldable pub new_consensus_state : (Option Batch → String) → ℕ → ℕ → Option Batch → ConsensusState
new_consensus_state hash_batch view sequence batch = record {
  view = view;
  sequence = sequence;
  phase = pre_prepare;
  prepare_count = [];
  commit_count = [];
  batch = batch;
  batch_hash = hash_batch batch;
  decided = false;
  sent_commit = false;
  pre_prepare_msg = none;
}

-- `HasQuorum`; for no nodes at all Go's (0 - 1) / 3 is 0, as here.
unfoldable pub has_quorum : ℕ → ℕ → Bool
has_quorum count total_nodes = let f = (total_nodes - 1) / 3 in leb (2 * f + 1) count

-- The number of votes that the message handlers ask for.
unfoldable pub quorum : ℕ → ℕ
quorum total_nodes = 2 * (total_nodes / 3) + 1
