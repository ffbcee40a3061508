-- ===== src/Sequencer/Wiring.antt =====
-- pkg/sequencer/sequencer.go and pkg/consensus/pbft.go: the handlers that a sequencer sets up on its
-- node when it starts, and what the streams of peers can do to it.
use zkrollup_go.Base.{
  ◌≡◌, inl, inr, ℕ, List, Option, none, some, String, string_eq, ◌==◌, Bool-cases,
}
use zkrollup_go.Outcome.{M, Outcome, ok, err, panic}
use zkrollup_go.Outcome.Frame.{Leaves, Keeps}
use zkrollup_go.Consensus.Pbft.{Environment}
use zkrollup_go.Consensus.Handler.{handle_message}
use zkrollup_go.Sequencer.{Sequencer, handle_transaction}
use zkrollup_go.Sequencer.Invariant.{IsSound, handle_transaction-Keeps}
use zkrollup_go.Sequencer.Machine.{handle_batch-Keeps, handle_consensus-Keeps}
use zkrollup_go.Sequencer.Batching.{on_consensus, handle_batch, handle_consensus}
use zkrollup_go.Network.{
  Node, ProtocolHandlers, setup_protocols, get_protocol_handlers, transaction_protocol_id,
  batch_protocol_id,
}
use zkrollup_go.Network.Streams.{Codec, Ending, receive_stream}
use zkrollup_go.Network.Delivery.{effect, called, intended, receive_stream-intended}

module _ (env : Environment) where
  -- the handlers of NewSequencer and of `Start`
  unfoldable pub sequencer_handlers : ProtocolHandlers Sequencer
  sequencer_handlers = record {
    on_transaction = some handle_transaction;
    on_batch = some (handle_batch env);
    on_consensus = some (handle_consensus env);
  }

  -- `PBFT.Start`: the consensus takes over the handler of its messages.
  unfoldable pub start_consensus : Node Sequencer → Node Sequencer
  unfolding get_protocol_handlers setup_protocols
  start_consensus n =
      let existing = get_protocol_handlers n in
      setup_protocols
        (some
          (record existing { on_consensus = some (λ msg. on_consensus (handle_message env msg)) }))
        n

  -- `Sequencer.Start`
  unfoldable pub start_sequencer : Node Sequencer → Node Sequencer
  unfolding start_consensus sequencer_handlers setup_protocols
  start_sequencer n = setup_protocols (some sequencer_handlers) (start_consensus n)

-- The predicate of what is left, where something is.
abbrev OnState : {S : Type 0} → (S → Type 0) → Option S → Type 0
OnState P none = Unit
OnState P (some s) = P s

Leaves-effect :
    {S A : Type 0} (P : S → Type 0) (r : Outcome S A) → OnState P (effect r) → Leaves P r
Leaves-effect P (ok _ s) h = h
Leaves-effect P (err _ s) h = h
Leaves-effect P panic h = tt

effect-Leaves :
    {S A : Type 0} (P : S → Type 0) (r : Outcome S A) → Leaves P r → OnState P (effect r)
effect-Leaves P (ok _ s) h = h
effect-Leaves P (err _ s) h = h
effect-Leaves P panic h = tt

called-OnState :
    {S A : Type 0} (P : S → Type 0) (value : Option A) (handler : A → M S (Unit {0}))
    → ((a : A) → Keeps P (handler a))
    → (s : S) → P s
    → OnState P (called value (some handler) s)
called-OnState P none handler k s h = h
called-OnState P (some a) handler k s h = effect-Leaves P (handler a s) ((k a).run s h)

module _ (env : Environment) (json : Codec) where
  intended-OnState :
      (protocol : String) (bytes : List ℕ) (q : Sequencer)
      → IsSound q
      → OnState IsSound (intended json protocol (some (sequencer_handlers env)) bytes q)
  unfolding sequencer_handlers
  intended-OnState protocol bytes q sound =
      elim (Bool-cases (protocol == transaction_protocol_id)) [
        | inl tx ↦
            rw (intended, tx)
              (called-OnState IsSound _ handle_transaction handle_transaction-Keeps q sound)
        | inr other ↦ elim (Bool-cases (protocol == batch_protocol_id)) [
          | inl batch ↦
              rw (intended, other, batch)
                (called-OnState IsSound _ (handle_batch env) (handle_batch-Keeps env) q sound)
          | inr third ↦
              rw (intended, other, third)
                (called-OnState IsSound _ (handle_consensus env) (handle_consensus-Keeps env) q
                  sound)
        ]
      ]

  -- Whatever bytes a peer sends on whatever protocol to a sequencer that has started, a sound
  -- sequencer is left sound, or the process ends.
  pub receive_stream-IsSound :
      (n : Node Sequencer) (protocol : String) (bytes : List ℕ) (run : M Sequencer Ending)
      → receive_stream json (start_sequencer env n) protocol bytes ≡ some run
      → (q : Sequencer) → IsSound q
      → Leaves IsSound (run q)
  unfolding start_sequencer
  receive_stream-IsSound n protocol bytes run e q sound = Leaves-effect IsSound (run q) (
      rw (receive_stream-intended json (start_sequencer env n) protocol bytes run e q)
        (intended-OnState protocol bytes q sound))
