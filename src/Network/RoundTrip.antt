-- ===== src/Network/RoundTrip.antt =====
-- pkg/p2p/protocol.go: what one node broadcasts, and what another does with it.
use zkrollup_go.Base.{
  ◌≡◌, refl, ap, ◌∙◌, ℕ, List, [], ◌∷◌, ◌++◌, Option, some, String, All, string_eq, lookup, map,
}
use zkrollup_go.Outcome.{M, Outcome, ok, err, panic}
use zkrollup_go.State.{Transaction, Batch}
use zkrollup_go.Network.{
  Message, StreamHandler, Node, transaction_protocol_id, batch_protocol_id, consensus_protocol_id,
}
use zkrollup_go.Network.Streams.{
  Codec, Ending, receive_stream, transaction_handler, batch_handler, consensus_handler,
}
use zkrollup_go.Network.Broadcast.{
  Links, Wire, broadcast, broadcast_transaction, broadcast_batch, broadcast_consensus,
}
use zkrollup_go.Network.Reach.{Broadcasts, reached, packets, broadcast-Broadcasts}
use zkrollup_go.Network.Delivery.{effect, payload_of, intended, receive_stream_lem}

-- What the program relies on of encoding/json: a message is read back as it was written.
abbrev pub DecodesMessages : Codec → Type 0
DecodesMessages json = (msg : Message) → json.decode (json.encode msg) ≡ some msg

module _ {S : Type 0} (json : Codec) (receiver : Node S) where
  -- The receiver makes of the packet a run with this effect.
  abbrev pub Delivers : (S → Option S) → String × String × List ℕ → Type 0
  Delivers handled (peer, protocol, bytes) =
      (run : M S Ending) × (receive_stream json receiver protocol bytes ≡ some run)
      × ((s : S) → effect (run s) ≡ handled s)

  -- After a broadcast that ended so, a packet with the effect has gone to each peer that is reached.
  abbrev pub Arrives :
      (S → Option S) → Links → List String → Wire → Outcome Wire (Unit {0}) → Type 0
  Arrives handled links peers w (ok _ w') =
      (sent : List (String × String × List ℕ)) × (w'.sent ≡ w.sent ++ sent)
      × (map (λ packet. packet.0) sent ≡ reached links peers)
      × All (Delivers handled) sent
  Arrives handled links peers w (err e w') = (reached links peers ≡ []) × (w'.sent ≡ w.sent)
  Arrives handled links peers w panic = ⊥

  All-packets :
      (handled : S → Option S) (links : Links) (protocol : String) (bytes : List ℕ)
      → (run : M S Ending) × (receive_stream json receiver protocol bytes ≡ some run)
        × ((s : S) → effect (run s) ≡ handled s)
      → (peers : List String)
      → (map (λ packet. packet.0) (packets links protocol bytes peers) ≡ peers)
        × All (Delivers handled) (packets links protocol bytes peers)
  All-packets handled links protocol bytes one [] = (refl, tt)
  All-packets handled links protocol bytes one (peer ∷ rest) =
      let (names, all) = All-packets handled links protocol bytes one rest in
      (ap (◌∷◌ peer) names, (one, all))

  Broadcasts-Arrives :
      (handled : S → Option S) (links : Links) (peers : List String) (protocol : String)
      (msg : Message) (w : Wire)
      → (run : M S Ending) × (receive_stream json receiver protocol (json.encode msg) ≡ some run)
        × ((s : S) → effect (run s) ≡ handled s)
      → (r : Outcome Wire (Unit {0})) → Broadcasts links json peers protocol msg w r
      → Arrives handled links peers w r
  Broadcasts-Arrives handled links peers protocol msg w one (ok _ w') h =
      let (names, all) =
        All-packets handled links protocol (json.encode msg) one (reached links peers) in
      (packets links protocol (json.encode msg) (reached links peers), h.1, names, all)
  Broadcasts-Arrives handled links peers protocol msg w one (err e w') h = (h.2, h.3)
  Broadcasts-Arrives handled links peers protocol msg w one panic h = h

  module _ {T : Type 0} (links : Links) (sender : Node T) (w : Wire)
      (json_laws : DecodesMessages json) where
    broadcast-Arrives :
        (handled : S → Option S) (protocol : String) (msg : Message) (handler : StreamHandler)
        → lookup protocol receiver.stream_handlers ≡ some handler
        → ((s : S) → intended json protocol receiver.handlers (json.encode msg) s ≡ handled s)
        → Arrives handled links sender.connected w (broadcast links json sender protocol msg w)
    broadcast-Arrives handled protocol msg handler serves same =
        let (run, e, does) =
          receive_stream_lem json receiver protocol handler (json.encode msg) serves in
        Broadcasts-Arrives handled links sender.connected protocol msg w
          (run, e, λ s. does s ∙ same s) (broadcast links json sender protocol msg w)
          (broadcast-Broadcasts links json sender protocol msg w)

    -- A transaction that JSON reads back as it was: each peer that the broadcast reaches, which serves
    -- the protocol and has a handler for transactions, calls it on the transaction and does nothing else.
    pub broadcast_transaction-Arrives :
        (tx : Transaction) (payload : List ℕ) (on_transaction : Transaction → M S (Unit {0}))
        (handler : StreamHandler)
        → json.marshal_transaction tx ≡ some payload
        → json.unmarshal_transaction payload ≡ some tx
        → lookup transaction_protocol_id receiver.stream_handlers ≡ some handler
        → transaction_handler receiver.handlers ≡ some on_transaction
        → Arrives
            (λ s. effect (on_transaction tx s))
            links
            sender.connected
            w
            (broadcast_transaction links json sender tx w)
    unfolding broadcast_transaction
    broadcast_transaction-Arrives tx payload on_transaction handler marshals unmarshals serves has =
        rw (broadcast_transaction, marshals)
          (broadcast-Arrives _ transaction_protocol_id _ handler serves
            (λ s. rw (payload_of, json_laws, unmarshals, has)))

    -- The same of a batch and of a message of the consensus, whose bytes are passed on as they are.
    pub broadcast_batch-Arrives :
        (batch : Batch) (payload : List ℕ) (on_batch : Batch → M S (Unit {0}))
        (handler : StreamHandler)
        → json.marshal_batch batch ≡ some payload
        → json.unmarshal_batch payload ≡ some batch
        → lookup batch_protocol_id receiver.stream_handlers ≡ some handler
        → batch_handler receiver.handlers ≡ some on_batch
        → Arrives
            (λ s. effect (on_batch batch s))
            links
            sender.connected
            w
            (broadcast_batch links json sender batch w)
    unfolding broadcast_batch
    broadcast_batch-Arrives batch payload on_batch handler marshals unmarshals serves has =
        rw (broadcast_batch, marshals)
          (broadcast-Arrives _ batch_protocol_id _ handler serves
            (λ s. rw (payload_of, json_laws, unmarshals, has)))

    pub broadcast_consensus-Arrives :
        (payload : List ℕ) (on_consensus : List ℕ → M S (Unit {0})) (handler : StreamHandler)
        → lookup consensus_protocol_id receiver.stream_handlers ≡ some handler
        → consensus_handler receiver.handlers ≡ some on_consensus
        → Arrives
            (λ s. effect (on_consensus payload s))
            links
            sender.connected
            w
            (broadcast_consensus links json sender payload w)
    unfolding broadcast_consensus
    broadcast_consensus-Arrives payload on_consensus handler serves has =
        broadcast-Arrives _ consensus_protocol_id _ handler serves
          (λ s. rw (payload_of, json_laws, has))
