-- ===== src/Network.antt =====
-- pkg/p2p/protocol.go and host.go: a node of the peer-to-peer network. libp2p and JSON are parameters.
-- A handler of the program acts on a state `S`, which is the sequencer's. The function that the host
-- keeps for a protocol is named by who installed it, since it captures only the node. Locks and the
-- log do not appear.
pub mod Streams
pub mod Broadcast
pub mod Discovery
pub mod Delivery
pub mod Reach
pub mod RoundTrip
pub mod Peers
pub mod Bootstrap
use zkrollup_go.Base.{
  ℕ, List, [], ◌∷◌, Option, none, some, String, Map, lookup, insert, Bool, true, false, not, ◌||◌,
  if◌then◌else◌, string_eq,
}
use zkrollup_go.Base.Int.{ℤ, pos}
use zkrollup_go.Outcome.{M}
use zkrollup_go.State.{Transaction, Batch}

abbrev pub transaction_protocol_id : String
transaction_protocol_id = "/zkrollup/tx/1.0.0"

abbrev pub batch_protocol_id : String
batch_protocol_id = "/zkrollup/batch/1.0.0"

abbrev pub consensus_protocol_id : String
consensus_protocol_id = "/zkrollup/consensus/1.0.0"

abbrev pub message_transaction : ℤ
message_transaction = pos 0

abbrev pub message_batch : ℤ
message_batch = pos 1

abbrev pub message_consensus : ℤ
message_consensus = pos 2

-- A peer may send any int as the type.
pub record Message : Type 0 where
  pub msg_type : ℤ
  pub payload : List ℕ

-- A handler that is nil is `none`.
pub record ProtocolHandlers (S : Type 0) : Type 0 where
  pub on_transaction : Option (Transaction → M S (Unit {0}))
  pub on_batch : Option (Batch → M S (Unit {0}))
  pub on_consensus : Option (List ℕ → M S (Unit {0}))

-- Which of the two functions serves a protocol's streams.
pub data StreamHandler : Type 0 where
  by_default by_setup : StreamHandler

-- `stream_handlers` and `connected` are the host's; `peers` is the node's own map.
pub record Node (S : Type 0) : Type 0 where
  pub id : String
  pub connected : List String
  pub peers : Map String (List String)
  pub handlers : Option (ProtocolHandlers S)
  pub stream_handlers : Map String StreamHandler

abbrev pub is_set : {A : Type 0} → Option A → Bool
is_set none = false
is_set (some _) = true

module _ {S : Type 0} where
  abbrev pub empty_handlers : ProtocolHandlers S
  empty_handlers = record { on_transaction = none; on_batch = none; on_consensus = none }

  -- `hasHandlers`
  unfoldable pub has_handlers : Option (ProtocolHandlers S) → Bool
  has_handlers none = false
  has_handlers (some h) = is_set h.on_transaction || is_set h.on_batch || is_set h.on_consensus

  -- The three calls of SetStreamHandler; what was there before is replaced.
  unfoldable pub install : StreamHandler → Node S → Node S
  install handler n = record n {
    stream_handlers = insert consensus_protocol_id handler (
        insert batch_protocol_id handler
          (insert transaction_protocol_id handler n.stream_handlers));
  }

  -- `if handlers != nil`
  abbrev or_keep :
      Option (ProtocolHandlers S) → Option (ProtocolHandlers S) → Option (ProtocolHandlers S)
  or_keep none old = old
  or_keep (some handlers) old = some handlers

  -- `SetupProtocols`
  unfoldable pub setup_protocols : Option (ProtocolHandlers S) → Node S → Node S
  unfolding install
  setup_protocols handlers n =
      install by_setup (record n { handlers = or_keep handlers n.handlers })

  -- `registerDefaultProtocolHandlers`
  unfoldable pub register_default_protocol_handlers : Node S → Node S
  unfolding install has_handlers
  register_default_protocol_handlers n = if has_handlers n.handlers then n else install by_default n

  -- `GetProtocolHandlers`
  unfoldable pub get_protocol_handlers : Node S → ProtocolHandlers S
  get_protocol_handlers n = elim n.handlers [
    | none ↦ empty_handlers
    | some h ↦ record {
      on_transaction = h.on_transaction;
      on_batch = h.on_batch;
      on_consensus = h.on_consensus;
    }
  ]

  -- `GetPeers`
  unfoldable pub get_peers : Node S → List String
  get_peers n = n.connected
