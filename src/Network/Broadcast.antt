-- ===== src/Network/Broadcast.antt =====
-- pkg/p2p/protocol.go: sending a message to the connected peers. What the network does with each
-- attempt is a parameter; what the node did is kept in `Wire`, in order.
use zkrollup_go.Base.{
  ℕ, zero, suc, ◌+◌, List, [], ◌∷◌, ◌++◌, Option, none, some, String, Bool, true, false, ◌&&◌, ◌||◌,
  ltb, nat_eqb, if◌then◌else◌, length, string_eq, ◌==◌,
}
use zkrollup_go.Outcome.{M, err, pure, raise, broadcast_failed, marshal_failed}
use zkrollup_go.State.{Transaction, Batch}
use zkrollup_go.Network.{
  Message, Node, get_peers, message_transaction, message_batch, message_consensus,
  transaction_protocol_id, batch_protocol_id, consensus_protocol_id,
}
use zkrollup_go.Network.Streams.{Codec}

-- The text of the error of `NewStream` to a peer at an attempt, if it fails, and whether the message
-- can then be written.
pub record Links : Type 0 where
  pub new_stream : String → ℕ → Option String
  pub writes : String → Bool

-- `opened` has an entry for each call of `NewStream`, and `sent` one for each message that a peer got.
pub record Wire : Type 0 where
  pub opened : List String
  pub sent : List (String × String × List ℕ)

-- the errors after which the loop goes on
abbrev pub is_negotiation : String → Bool
is_negotiation error =
    error == "failed to negotiate protocol: protocols not supported"
    || error == "protocol not supported"

abbrev pub log_attempt : String → Wire → Wire
log_attempt peer w = record w { opened = w.opened ++ peer ∷ [] }

module _ (links : Links) where
  -- The loop over the attempts: `rounds` are left, and `attempts` were made.
  unfoldable pub open_stream : ℕ → ℕ → String → Wire → Bool × Wire
  open_stream zero attempts peer w = (false, w)
  open_stream (suc rounds) attempts peer w = elim (links.new_stream peer attempts) [
    | none ↦ (true, log_attempt peer w)
    | some error ↦ elim (ltb attempts 2 && is_negotiation error) [
      | true ↦ open_stream rounds (attempts + 1) peer (log_attempt peer w)
      | false ↦ (false, log_attempt peer w)
    ]
  ]

  module _ (protocol : String) (bytes : List ℕ) where
    abbrev write : String → Bool × Wire → Bool × Wire
    write peer (false, w) = (false, w)
    write peer (true, w) =
        if links.writes peer
        then (true, record w { sent = w.sent ++ (peer, protocol, bytes) ∷ [] })
        else (false, w)

    -- the body of the loop over the peers, and whether it counts as a success
    unfoldable pub send : String → Wire → Bool × Wire
    unfolding open_stream
    send peer w = write peer (open_stream 5 0 peer w)

    -- the loop over the peers, with `successCount`
    unfoldable pub send_all : List String → ℕ × Wire → ℕ × Wire
    unfolding send
    send_all [] acc = acc
    send_all (peer ∷ peers) (count, w) =
        let (success, w') = send peer w in send_all peers (if success then count + 1 else count, w')

  module _ {S : Type 0} (json : Codec) where
    -- `broadcast`
    unfoldable pub broadcast : Node S → String → Message → M Wire (Unit {0})
    unfolding send_all get_peers
    broadcast n protocol msg w =
        let (count, w') = send_all protocol (json.encode msg) (get_peers n) (0, w) in
        if nat_eqb (length (get_peers n)) 0
        then pure tt w
        else if nat_eqb count 0
        then err broadcast_failed w'
        else pure tt w'

    unfoldable pub broadcast_transaction : Node S → Transaction → M Wire (Unit {0})
    unfolding broadcast
    broadcast_transaction n tx = elim (json.marshal_transaction tx) [
      | none ↦ raise marshal_failed
      | some payload ↦
          broadcast n transaction_protocol_id
            (record { msg_type = message_transaction; payload = payload })
    ]

    unfoldable pub broadcast_batch : Node S → Batch → M Wire (Unit {0})
    unfolding broadcast
    broadcast_batch n batch = elim (json.marshal_batch batch) [
      | none ↦ raise marshal_failed
      | some payload ↦
          broadcast n batch_protocol_id (record { msg_type = message_batch; payload = payload })
    ]

    unfoldable pub broadcast_consensus : Node S → List ℕ → M Wire (Unit {0})
    unfolding broadcast
    broadcast_consensus n payload =
        broadcast n consensus_protocol_id
          (record { msg_type = message_consensus; payload = payload })
