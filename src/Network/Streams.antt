-- ===== src/Network/Streams.antt =====
-- pkg/p2p/protocol.go and host.go: what a node does with a stream that a peer opens. The bytes are
-- what can be read from the stream before it ends or the deadline passes.
use zkrollup_go.Base.{
  List, ℕ, Option, none, some, String, lookup, not, if◌then◌else◌, string_eq, ◌==◌,
}
use zkrollup_go.Base.Int.{eqb_ℤ}
use zkrollup_go.Outcome.{M, Outcome, ok, err, panic, pure}
use zkrollup_go.State.{Transaction, Batch}
use zkrollup_go.Network.{
  Message, ProtocolHandlers, StreamHandler, by_default, by_setup, Node, transaction_protocol_id,
  batch_protocol_id, message_transaction, message_batch, message_consensus,
}

-- encoding/json on the types of the network; `none` is an error.
pub record Codec : Type 0 where
  pub encode : Message → List ℕ
  pub decode : List ℕ → Option Message
  pub marshal_transaction : Transaction → Option (List ℕ)
  pub unmarshal_transaction : List ℕ → Option Transaction
  pub marshal_batch : Batch → Option (List ℕ)
  pub unmarshal_batch : List ℕ → Option Batch

-- How the node ended the stream: `Close` or `Reset`.
pub data Ending : Type 0 where
  closed reset : Ending

-- An error of a handler is logged, and the stream ends.
abbrev pub ended : {S : Type 0} → Ending → Outcome S (Unit {0}) → Outcome S Ending
ended bad (ok _ s) = ok closed s
ended bad (err _ s) = ok bad s
ended bad panic = panic

abbrev pub run_handler : {S : Type 0} → Ending → M S (Unit {0}) → M S Ending
run_handler bad run s = ended bad (run s)

module _ {S : Type 0} where
  -- `handlers == nil || handlers.OnTransaction == nil`, and the handler where there is one
  abbrev pub transaction_handler :
      Option (ProtocolHandlers S) → Option (Transaction → M S (Unit {0}))
  transaction_handler none = none
  transaction_handler (some h) = h.on_transaction

  abbrev pub batch_handler : Option (ProtocolHandlers S) → Option (Batch → M S (Unit {0}))
  batch_handler none = none
  batch_handler (some h) = h.on_batch

  abbrev pub consensus_handler : Option (ProtocolHandlers S) → Option (List ℕ → M S (Unit {0}))
  consensus_handler none = none
  consensus_handler (some h) = h.on_consensus

  module _ (json : Codec) where
    -- the stream handlers of SetupProtocols, which `defer s.Close()`
    unfoldable pub setup_transaction : Option (ProtocolHandlers S) → List ℕ → M S Ending
    setup_transaction handlers bytes = elim (json.decode bytes) [
      | none ↦ pure closed
      | some msg ↦
          if not (eqb_ℤ msg.msg_type message_transaction)
          then pure closed
          else elim (json.unmarshal_transaction msg.payload) [
            | none ↦ pure closed
            | some tx ↦ elim (transaction_handler handlers) [
              | none ↦ pure closed
              | some on_transaction ↦ run_handler closed (on_transaction tx)
            ]
          ]
    ]

    unfoldable pub setup_batch : Option (ProtocolHandlers S) → List ℕ → M S Ending
    setup_batch handlers bytes = elim (json.decode bytes) [
      | none ↦ pure closed
      | some msg ↦
          if not (eqb_ℤ msg.msg_type message_batch)
          then pure closed
          else elim (json.unmarshal_batch msg.payload) [
            | none ↦ pure closed
            | some batch ↦ elim (batch_handler handlers) [
              | none ↦ pure closed
              | some on_batch ↦ run_handler closed (on_batch batch)
            ]
          ]
    ]

    unfoldable pub setup_consensus : Option (ProtocolHandlers S) → List ℕ → M S Ending
    setup_consensus handlers bytes = elim (json.decode bytes) [
      | none ↦ pure closed
      | some msg ↦
          if not (eqb_ℤ msg.msg_type message_consensus)
          then pure closed
          else elim (consensus_handler handlers) [
            | none ↦ pure closed
            | some on_consensus ↦ run_handler closed (on_consensus msg.payload)
          ]
    ]

    -- the stream handlers of registerDefaultProtocolHandlers, which reset the stream on an error
    unfoldable pub default_transaction : Option (ProtocolHandlers S) → List ℕ → M S Ending
    default_transaction handlers bytes = elim (transaction_handler handlers) [
      | none ↦ pure closed
      | some on_transaction ↦ elim (json.decode bytes) [
        | none ↦ pure reset
        | some msg ↦
            if not (eqb_ℤ msg.msg_type message_transaction)
            then pure reset
            else elim (json.unmarshal_transaction msg.payload) [
              | none ↦ pure reset
              | some tx ↦ run_handler reset (on_transaction tx)
            ]
      ]
    ]

    unfoldable pub default_batch : Option (ProtocolHandlers S) → List ℕ → M S Ending
    default_batch handlers bytes = elim (batch_handler handlers) [
      | none ↦ pure closed
      | some on_batch ↦ elim (json.decode bytes) [
        | none ↦ pure reset
        | some msg ↦
            if not (eqb_ℤ msg.msg_type message_batch)
            then pure reset
            else elim (json.unmarshal_batch msg.payload) [
              | none ↦ pure reset
              | some batch ↦ run_handler reset (on_batch batch)
            ]
      ]
    ]

    unfoldable pub default_consensus : Option (ProtocolHandlers S) → List ℕ → M S Ending
    default_consensus handlers bytes = elim (consensus_handler handlers) [
      | none ↦ pure closed
      | some on_consensus ↦ elim (json.decode bytes) [
        | none ↦ pure reset
        | some msg ↦
            if not (eqb_ℤ msg.msg_type message_consensus)
            then pure reset
            else run_handler reset (on_consensus msg.payload)
      ]
    ]

    -- the function that is installed for a protocol of the program
    unfoldable pub stream_function :
        StreamHandler → String → Option (ProtocolHandlers S) → List ℕ → M S Ending
    unfolding setup_transaction setup_batch setup_consensus default_transaction default_batch
        default_consensus
    stream_function by_setup protocol =
        if protocol == transaction_protocol_id
        then setup_transaction
        else if protocol == batch_protocol_id
        then setup_batch
        else setup_consensus
    stream_function by_default protocol =
        if protocol == transaction_protocol_id
        then default_transaction
        else if protocol == batch_protocol_id
        then default_batch
        else default_consensus

    -- A stream that a peer opens: as libp2p documents, the host calls the function that was set for the
    -- stream's protocol, and refuses a protocol that has none.
    unfoldable pub receive_stream : Node S → String → List ℕ → Option (M S Ending)
    unfolding stream_function
    receive_stream n protocol bytes = elim (lookup protocol n.stream_handlers) [
      | none ↦ none
      | some handler ↦ some (stream_function handler protocol n.handlers bytes)
    ]
