-- ===== src/Tests/Peers.antt =====
-- The theorems about the network at concrete inputs.
use zkrollup_go.Base.{
  ◌≡◌, refl, ℕ, zero, suc, List, [], ◌∷◌, Option, none, some, true, not, nat_eqb, string_eq, ◌==◌,
  if◌then◌else◌,
}
use zkrollup_go.Base.Int.{ℤ, pos, negsuc}
use zkrollup_go.Outcome.{M}
use zkrollup_go.Outcome.Frame.{Leaves}
use zkrollup_go.Network.{
  Message, by_setup, Node, setup_protocols, install, transaction_protocol_id, consensus_protocol_id,
  message_consensus,
}
use zkrollup_go.Network.Streams.{Codec, Ending, receive_stream, stream_function, setup_transaction}
use zkrollup_go.Network.Broadcast.{Links, Wire, broadcast, broadcast_transaction}
use zkrollup_go.Network.Discovery.{Libp2p, AddrInfo}
use zkrollup_go.Network.Delivery.{effect, intended, receive_stream_lem}
use zkrollup_go.Network.Reach.{Broadcasts, broadcast-Broadcasts}
use zkrollup_go.Network.RoundTrip.{DecodesMessages, Arrives, broadcast_transaction-Arrives}
use zkrollup_go.Sequencer.{Sequencer, handle_transaction}
use zkrollup_go.Sequencer.Invariant.{IsSound}
use zkrollup_go.Sequencer.Wiring.{start_sequencer, sequencer_handlers, receive_stream-IsSound}
use zkrollup_go.Tests.{payment}
use zkrollup_go.Tests.Agreement.{net}
use zkrollup_go.Tests.Intake.{boot_state, boot_state-IsSound}

-- a wire format that keeps the sign, the size and the payload apart
abbrev tagged : ℤ → List ℕ → List ℕ
tagged (pos n) payload = zero ∷ n ∷ payload
tagged (negsuc n) payload = suc zero ∷ n ∷ payload

abbrev decoded : List ℕ → Option Message
decoded (zero ∷ n ∷ payload) = some (record { msg_type = pos n; payload = payload })
decoded (suc _ ∷ n ∷ payload) = some (record { msg_type = negsuc n; payload = payload })
decoded _ = none

abbrev pub json : Codec
json = record {
  encode = λ msg. tagged msg.msg_type msg.payload;
  decode = decoded;
  marshal_transaction = λ tx. some (7 ∷ []);
  unmarshal_transaction = λ bytes. some payment;
  marshal_batch = λ batch. none;
  unmarshal_batch = λ bytes. none;
}

tagged-decoded :
    (type : ℤ) (payload : List ℕ)
    → decoded (tagged type payload) ≡ some (record { msg_type = type; payload = payload })
tagged-decoded (pos n) payload = refl
tagged-decoded (negsuc n) payload = refl

json_laws : DecodesMessages json
json_laws msg = tagged-decoded msg.msg_type msg.payload

-- the peer "b" answers the second attempt, and "c" none
abbrev links : Links
links = record {
  new_stream = λ peer attempt.
      if nat_eqb attempt 0
      then some "protocol not supported"
      else if peer == "c"
      then some "unreachable"
      else none;
  writes = λ peer. true;
}

abbrev sender : Node Sequencer
sender = record {
  id = "a";
  connected = "b" ∷ "c" ∷ [];
  peers = [];
  handlers = none;
  stream_handlers = [];
}

abbrev quiet : Wire
quiet = record { opened = []; sent = [] }

-- a sequencer's node that has started
abbrev receiver : Node Sequencer
receiver = start_sequencer net sender

broadcast_transaction-Arrives_example :
    Arrives json receiver
      (λ q. effect (handle_transaction payment q))
      links
      sender.connected
      quiet
      (broadcast_transaction links json sender payment quiet)
unfolding start_sequencer sequencer_handlers setup_protocols install
broadcast_transaction-Arrives_example =
    broadcast_transaction-Arrives json receiver links sender quiet json_laws payment (7 ∷ [])
      handle_transaction by_setup refl refl refl refl

broadcast-Broadcasts_example :
    Broadcasts links json sender.connected consensus_protocol_id
      (record { msg_type = message_consensus; payload = [] })
      quiet
      (broadcast links json sender consensus_protocol_id
        (record { msg_type = message_consensus; payload = [] })
        quiet)
broadcast-Broadcasts_example =
    broadcast-Broadcasts links json sender consensus_protocol_id
      (record { msg_type = message_consensus; payload = [] }) quiet

receive_stream_lem_example :
    (run : M Sequencer Ending) × (receive_stream json receiver transaction_protocol_id
        (0 ∷ 0 ∷ 7 ∷ [])
      ≡ some run)
    × ((q : Sequencer)
        → effect (run q)
          ≡ intended json transaction_protocol_id receiver.handlers (0 ∷ 0 ∷ 7 ∷ []) q)
unfolding start_sequencer setup_protocols install
receive_stream_lem_example =
    receive_stream_lem json receiver transaction_protocol_id by_setup (0 ∷ 0 ∷ 7 ∷ []) refl

receive_stream-IsSound_example :
    Leaves IsSound
      (setup_transaction json (some (sequencer_handlers net)) (0 ∷ 0 ∷ 7 ∷ []) boot_state)
unfolding start_sequencer setup_protocols install receive_stream stream_function
receive_stream-IsSound_example =
    receive_stream-IsSound net json sender transaction_protocol_id (0 ∷ 0 ∷ 7 ∷ [])
      (setup_transaction json (some (sequencer_handlers net)) (0 ∷ 0 ∷ 7 ∷ [])) refl boot_state
      boot_state-IsSound

-- the peers that a network with two live addresses has
abbrev pub swarm : Libp2p
swarm = record {
  is_multiaddr = λ addr. true;
  listen_addr = λ port. "/ip4/0.0.0.0/tcp/9000";
  info = λ addr. if addr == "x" then none else some (record { id = addr; addrs = addr ∷ [] });
  connects = λ info. not (info.id == "c");
  closes = λ id. true;
  host_id = some "a";
  has_dht = true;
  bootstraps = true;
}

abbrev found : List AddrInfo
found =
    record { id = "a"; addrs = [] }
    ∷ record { id = "c"; addrs = [] }
    ∷ record { id = "d"; addrs = [] }
    ∷ []
