-- ===== src/Consensus/Handler.antt =====
-- pkg/consensus/pbft.go: HandleMessage, which hands a message to its handler.
pub mod Reachable
pub mod Votes
pub mod Delivery
pub mod Endings
pub mod Completion
pub mod Members
pub mod Agreement
use zkrollup_go.Base.{ℕ, List, [], ◌∷◌, Option, none, some}
use zkrollup_go.Outcome.{M, raise, modify, ◌>>◌, empty_message, malformed_message}
use zkrollup_go.Consensus.Types.{
  MessageType, ConsensusMessage, leader_rotation, crs_ceremony_start, crs_contribution,
  crs_ceremony_complete,
}
use zkrollup_go.Consensus.Pbft.{Pbft, Environment, add_node_id}
use zkrollup_go.Consensus.Rounds.{handle_round, handle_leader_rotation}
use zkrollup_go.Consensus.Crs.{
  handle_crs_ceremony_start, handle_crs_contribution, handle_crs_ceremony_complete,
}

module _ (env : Environment) where
  -- the handler of each type
  unfoldable pub handle_type : MessageType → ConsensusMessage → M Pbft (Unit {0})
  handle_type crs_ceremony_start msg = handle_crs_ceremony_start env msg
  handle_type crs_contribution msg = handle_crs_contribution env msg
  handle_type crs_ceremony_complete msg = handle_crs_ceremony_complete env msg
  handle_type leader_rotation msg = handle_leader_rotation env msg
  handle_type _ msg = handle_round env msg

  -- HandleMessage on a message that has been decoded
  unfoldable pub handle : ConsensusMessage → M Pbft (Unit {0})
  handle msg = do modify (add_node_id msg.node_id); handle_type msg.msg_type msg

  abbrev handle_decoded : Option ConsensusMessage → M Pbft (Unit {0})
  handle_decoded none = raise malformed_message
  handle_decoded (some msg) = handle msg

  -- `HandleMessage`
  unfoldable pub handle_message : List ℕ → M Pbft (Unit {0})
  handle_message [] = raise empty_message
  handle_message (b ∷ bs) = handle_decoded (env.decode (b ∷ bs))
