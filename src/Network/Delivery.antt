-- ===== src/Network/Delivery.antt =====
-- pkg/p2p/protocol.go and host.go: what a stream does to the program, whichever of the two functions
-- serves it.
use zkrollup_go.Base.{
  ◌≡◌, refl, inl, inr, ℕ, List, Option, none, some, String, lookup, if◌then◌else◌, string_eq, ◌==◌,
  Bool-cases, lookup-insert, arith,
}
use zkrollup_go.Base.Int.{ℤ, eqb_ℤ}
use zkrollup_go.Outcome.{M, Outcome, ok, err, panic}
use zkrollup_go.Network.{
  ProtocolHandlers, StreamHandler, by_default, by_setup, Node, transaction_protocol_id,
  batch_protocol_id, consensus_protocol_id, message_transaction, message_batch, message_consensus,
  setup_protocols, install,
}
use zkrollup_go.Network.Streams.{
  Codec, Ending, ended, run_handler, transaction_handler, batch_handler, consensus_handler,
  setup_transaction, setup_batch, setup_consensus, default_transaction, default_batch,
  default_consensus, stream_function, receive_stream,
}

-- The state that a run leaves, if the process goes on.
abbrev pub effect : {S A : Type 0} → Outcome S A → Option S
effect (ok _ s) = some s
effect (err _ s) = some s
effect panic = none

-- the call that the stream asks for, where there is one
abbrev pub called : {S A : Type 0} → Option A → Option (A → M S (Unit {0})) → S → Option S
called (some a) (some handler) s = effect (handler a s)
called _ _ s = some s

module _ (json : Codec) where
  -- the payload of a message of the given type
  abbrev pub payload_of : ℤ → List ℕ → Option (List ℕ)
  payload_of type bytes = elim (json.decode bytes) [
    | none ↦ none
    | some msg ↦ if eqb_ℤ msg.msg_type type then some msg.payload else none
  ]

abbrev pub parsed : {A : Type 0} → (List ℕ → Option A) → Option (List ℕ) → Option A
parsed parse none = none
parsed parse (some payload) = parse payload

module _ {S : Type 0} (json : Codec) where
  -- What a stream of the protocol is to do: call the protocol's handler, if there is one, on the
  -- value in the payload of a message of the protocol's own type, and nothing otherwise.
  abbrev pub intended : String → Option (ProtocolHandlers S) → List ℕ → S → Option S
  intended protocol handlers bytes =
      if protocol == transaction_protocol_id
      then called (parsed json.unmarshal_transaction (payload_of json message_transaction bytes))
          (transaction_handler handlers)
      else if protocol == batch_protocol_id
      then called (parsed json.unmarshal_batch (payload_of json message_batch bytes))
          (batch_handler handlers)
      else called (payload_of json message_consensus bytes) (consensus_handler handlers)

  effect-run_handler :
      (bad : Ending) (run : M S (Unit {0})) (s : S)
      → effect (run_handler bad run s) ≡ effect (run s)
  effect-run_handler bad run s = elim (run s) as (λ r. effect (ended bad r) ≡ effect r) [
    | ok _ s' ↦ refl
    | err _ s' ↦ refl
    | panic ↦ refl
  ]

  module _ (handlers : Option (ProtocolHandlers S)) (bytes : List ℕ) (s : S) where
    setup_transaction_lem :
        effect (setup_transaction json handlers bytes s)
        ≡ called
            (parsed json.unmarshal_transaction (payload_of json message_transaction bytes))
            (transaction_handler handlers)
            s
    unfolding setup_transaction
    setup_transaction_lem = grind (arith, effect-run_handler)

    default_transaction_lem :
        effect (default_transaction json handlers bytes s)
        ≡ called
            (parsed json.unmarshal_transaction (payload_of json message_transaction bytes))
            (transaction_handler handlers)
            s
    unfolding default_transaction
    default_transaction_lem = grind (arith, effect-run_handler)

    setup_batch_lem :
        effect (setup_batch json handlers bytes s)
        ≡ called
            (parsed json.unmarshal_batch (payload_of json message_batch bytes))
            (batch_handler handlers)
            s
    unfolding setup_batch
    setup_batch_lem = grind (arith, effect-run_handler)

    default_batch_lem :
        effect (default_batch json handlers bytes s)
        ≡ called
            (parsed json.unmarshal_batch (payload_of json message_batch bytes))
            (batch_handler handlers)
            s
    unfolding default_batch
    default_batch_lem = grind (arith, effect-run_handler)

    setup_consensus_lem :
        effect (setup_consensus json handlers bytes s)
        ≡ called (payload_of json message_consensus bytes) (consensus_handler handlers) s
    unfolding setup_consensus
    setup_consensus_lem = grind (arith, effect-run_handler)

    default_consensus_lem :
        effect (default_consensus json handlers bytes s)
        ≡ called (payload_of json message_consensus bytes) (consensus_handler handlers) s
    unfolding default_consensus
    default_consensus_lem = grind (arith, effect-run_handler)

    stream_function_lem :
        (handler : StreamHandler) (protocol : String)
        → effect (stream_function json handler protocol handlers bytes s)
          ≡ intended protocol handlers bytes s
    unfolding stream_function
    stream_function_lem by_setup protocol =
        elim (Bool-cases (protocol == transaction_protocol_id)) [
          | inl tx ↦ rw (tx) setup_transaction_lem
          | inr other ↦ elim (Bool-cases (protocol == batch_protocol_id)) [
            | inl batch ↦ rw (other, batch) setup_batch_lem
            | inr third ↦ rw (other, third) setup_consensus_lem
          ]
        ]
    stream_function_lem by_default protocol =
        elim (Bool-cases (protocol == transaction_protocol_id)) [
          | inl tx ↦ rw (tx) default_transaction_lem
          | inr other ↦ elim (Bool-cases (protocol == batch_protocol_id)) [
            | inl batch ↦ rw (other, batch) default_batch_lem
            | inr third ↦ rw (other, third) default_consensus_lem
          ]
        ]

  -- A node serves the stream of each protocol that it has a function for, and whichever function
  -- that is, the stream does what it is to do: it calls the protocol's handler on the value in a
  -- message of the protocol's type, and else leaves the state as it was.
  pub receive_stream_lem :
      (n : Node S) (protocol : String) (handler : StreamHandler) (bytes : List ℕ)
      → lookup protocol n.stream_handlers ≡ some handler
      → (run : M S Ending) × (receive_stream json n protocol bytes ≡ some run)
        × ((s : S) → effect (run s) ≡ intended protocol n.handlers bytes s)
  unfolding receive_stream
  receive_stream_lem n protocol handler bytes e = (
    stream_function json handler protocol n.handlers bytes,
    rw (receive_stream, e),
    λ s. stream_function_lem n.handlers bytes s handler protocol,
  )

  served :
      (protocol : String) (handlers : Option (ProtocolHandlers S)) (bytes : List ℕ)
      (run : M S Ending) (o : Option StreamHandler)
      → elim o [
        | none ↦ none
        | some handler ↦ some (stream_function json handler protocol handlers bytes)
      ]
        ≡ some run
      → (s : S) → effect (run s) ≡ intended protocol handlers bytes s
  served protocol handlers bytes run none e s = cc
  served protocol handlers bytes run (some handler) e s =
      let same : stream_function json handler protocol handlers bytes ≡ run = cc in
      rw⁻¹ (same) (stream_function_lem handlers bytes s handler protocol)

  -- A run of any stream.
  pub receive_stream-intended :
      (n : Node S) (protocol : String) (bytes : List ℕ) (run : M S Ending)
      → receive_stream json n protocol bytes ≡ some run
      → (s : S) → effect (run s) ≡ intended protocol n.handlers bytes s
  unfolding receive_stream
  receive_stream-intended n protocol bytes run e =
      served protocol n.handlers bytes run (lookup protocol n.stream_handlers) e

-- The three protocols have a function once SetupProtocols has run.
pub setup_protocols-lookup :
    {S : Type 0} (handlers : Option (ProtocolHandlers S)) (n : Node S)
    → let m = (setup_protocols handlers n).stream_handlers in
      (lookup transaction_protocol_id m ≡ some by_setup)
      × (lookup batch_protocol_id m ≡ some by_setup)
      × (lookup consensus_protocol_id m ≡ some by_setup)
unfolding setup_protocols install
setup_protocols-lookup handlers n = (simp lookup-insert, simp lookup-insert, simp lookup-insert)
