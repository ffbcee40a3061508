-- ===== src/Sequencer/Startup.antt =====
-- pkg/sequencer/sequencer.go, NewSequencer and Start: the sequencer, its node and its L1 client.
use zkrollup_go.Base.{
  ◌≡◌, ◌≢◌, sym, ℕ, refl, ◌⊎◌, inl, inr, List, Option, none, some, String, Bool, true, false, not,
  ◌&&◌, if◌then◌else◌, string_eq, ◌==◌, Bool-cases, Option-cases, arith,
}
use zkrollup_go.Base.Int.{ℤ}
use zkrollup_go.Outcome.{M, Outcome, ok, err, panic, pure, raise_if, ◌>>=◌, ◌>>◌, prover_failed}
use zkrollup_go.Consensus.Pbft.{Environment}
use zkrollup_go.Network.{Node, is_set, setup_protocols}
use zkrollup_go.Network.Discovery.{Libp2p, new_node}
use zkrollup_go.Network.Bootstrap.{Starts, new_node-Starts}
use zkrollup_go.L1.{Config as ClientConfig, Client, Access, new_client}
use zkrollup_go.Settings.{Config}
use zkrollup_go.Sequencer.{Sequencer, new_sequencer}
use zkrollup_go.Sequencer.Wiring.{sequencer_handlers, start_sequencer}

-- A sequencer with its node, and its L1 client, which is nil where there is none.
pub record Started : Type 0 where
  pub sequencer : Sequencer
  pub node : Node Sequencer
  pub l1_client : Option Client

-- whether the loop that submits batches runs
abbrev pub submits : Started → Bool
submits st = elim st.l1_client [ none ↦ false | some _ ↦ st.sequencer.l1_enabled ]

-- The configuration of the L1 client.
abbrev pub l1_config : Config → ClientConfig
l1_config config = record {
  ethereum_rpc = config.ethereum_rpc;
  chain_id = config.chain_id;
  contract_address = config.contract_address;
  private_key = config.l1_private_key;
}

-- The answers of go-ethereum while the client is made, and whether gnark makes the prover.
pub record Surroundings : Type 0 where
  pub env : Environment
  pub libp2p : Libp2p
  pub access : Access
  pub makes_prover : Bool

abbrev without_l1 : Started → Started
without_l1 st = record st { sequencer = record st.sequencer { l1_enabled = false } }

-- The end of NewSequencer; a client that cannot be made is logged only.
abbrev with_client : Started → Outcome Unit Client → M Bool Started
with_client st (ok client _) = pure (record st { l1_client = some client })
with_client st (err e _) = pure (without_l1 st)
with_client st panic = λ held. panic

unfoldable pub init_l1 : Access → Config → Started → M Bool Started
unfolding new_client
init_l1 access config st =
    if config.l1_enabled && not (config.l1_private_key == "")
    then with_client st (new_client access (l1_config config) tt)
    else pure (without_l1 st)

-- `NewSequencer`. The state is whether a host is left open, as for NewNode.
unfoldable pub create_sequencer : Surroundings → Config → ℤ → List String → Bool → M Bool Started
unfolding new_node new_sequencer setup_protocols sequencer_handlers init_l1
create_sequencer outer config port bootstrap is_leader = do
  node ← new_node outer.libp2p port bootstrap
  raise_if (not outer.makes_prover) prover_failed
  init_l1 outer.access config (record {
    sequencer = new_sequencer config.batch_size config.l1_enabled node.id is_leader;
    node = setup_protocols (some (sequencer_handlers outer.env)) node;
    l1_client = none;
  })

-- `Start`, up to the goroutines
unfoldable pub start : Surroundings → Started → Started
unfolding start_sequencer
start outer st = record st { node = start_sequencer outer.env st.node }

-- A new sequencer of that node, with its handlers; its L1 client is there exactly where the L1 is
-- enabled, and the L1 is enabled only where the configuration asks for it.
abbrev pub IsReady : Surroundings → Config → Bool → Started → Type 0
IsReady outer config is_leader st =
    ((batch_size : ℕ) × (st.sequencer ≡ new_sequencer batch_size (submits st) st.node.id is_leader))
    × (st.node.handlers ≡ some (sequencer_handlers outer.env))
    × (is_set st.l1_client ≡ st.sequencer.l1_enabled)
    × (st.sequencer.l1_enabled ≡ true → config.l1_enabled ≡ true)

-- How NewSequencer ends: with a sequencer that is ready, or with an error; the host of its node is
-- left open where the prover could not be made.
abbrev pub Creates : Surroundings → Config → Bool → Outcome Bool Started → Type 0
Creates outer config is_leader (ok st held) = (held ≡ true) × IsReady outer config is_leader st
Creates outer config is_leader (err e held) =
    (e ≡ prover_failed) × (outer.makes_prover ≡ false) × (held ≡ true) ⊎ (held ≡ false)
Creates outer config is_leader panic = ⊥

new_client_returns : (access : Access) (config : ClientConfig) → new_client access config tt ≢ panic
unfolding new_client
new_client_returns access config = elim (Bool-cases (access.dials config.ethereum_rpc)) [
  | inr silent ↦ rw (new_client, silent) (λ e. cc)
  | inl dials ↦ elim (Option-cases (access.address_of_key config.private_key)) [
    | inl bad ↦ rw (new_client, dials, bad) (λ e. cc)
    | inr (address, key) ↦ elim (Bool-cases (config.contract_address == "")) [
      | inl nowhere ↦ rw (new_client, dials, key, nowhere) (λ e. cc)
      | inr given ↦
          elim (Bool-cases (access.loads (access.hex_to_address config.contract_address))) [
            | inl loads ↦ rw (new_client, dials, key, given, loads) (λ e. cc)
            | inr fails ↦ rw (new_client, dials, key, given, fails) (λ e. cc)
          ]
    ]
  ]
]

module _ (outer : Surroundings) (is_leader : Bool) where
  with_client-IsReady :
      (config : Config) (node : Node Sequencer) (r : Outcome Unit Client)
      → r ≢ panic
      → config.l1_enabled ≡ true
      → Creates outer config is_leader (
          with_client
            (record {
              sequencer = new_sequencer config.batch_size config.l1_enabled node.id is_leader;
              node = setup_protocols (some (sequencer_handlers outer.env)) node;
              l1_client = none;
            })
            r
            true)
  unfolding new_sequencer setup_protocols
  with_client-IsReady config node (ok client _) h e =
      (refl, ((config.batch_size, refl), refl, sym e, λ _. e))
  with_client-IsReady config node (err x _) h e =
      (refl, ((config.batch_size, refl), refl, refl, λ off. absurd (ground (arith, off))))
  with_client-IsReady config node panic h e = absurd (h refl)

  init_l1-Creates :
      (access : Access) (config : Config) (node : Node Sequencer)
      → Creates outer config is_leader (
          init_l1 access config
            (record {
              sequencer = new_sequencer config.batch_size config.l1_enabled node.id is_leader;
              node = setup_protocols (some (sequencer_handlers outer.env)) node;
              l1_client = none;
            })
            true)
  unfolding init_l1 new_sequencer setup_protocols
  init_l1-Creates access config node =
      elim (Bool-cases (config.l1_enabled && not (config.l1_private_key == ""))) [
        | inr off ↦
            rw (init_l1, off)
              (
                refl,
                (
                  (config.batch_size, refl),
                  refl,
                  refl,
                  λ none_here. absurd (ground (arith, none_here)),
                ),
              )
        | inl on ↦
            rw (init_l1, on)
              (with_client-IsReady config node (new_client access (l1_config config) tt)
                (new_client_returns access (l1_config config)) (ground (arith, on)))
      ]

  created :
      (config : Config) (bootstrap : List String) (r : Outcome Bool (Node Sequencer))
      → Starts outer.libp2p bootstrap r
      → Creates outer config is_leader (elim r [
        | ok node held ↦
            (raise_if (not outer.makes_prover) prover_failed
                >> init_l1 outer.access config (record {
                  sequencer = new_sequencer config.batch_size config.l1_enabled node.id is_leader;
                  node = setup_protocols (some (sequencer_handlers outer.env)) node;
                  l1_client = none;
                }))
              held
        | err e held ↦ err e held
        | panic ↦ panic
      ])
  created config bootstrap (ok node held) h = elim (Bool-cases outer.makes_prover) [
    | inl made ↦ simp (made, h.0) (init_l1-Creates outer.access config node)
    | inr unmade ↦ simp (unmade) (inl (refl, refl, h.0))
  ]
  created config bootstrap (err e held) h = inr h.0
  created config bootstrap panic h = h

  -- On all branches of NewSequencer: it ends with a sequencer of its node that is ready, or with an
  -- error; the host of the node stays open where only the prover could not be made.
  pub create_sequencer-Creates :
      (config : Config) (port : ℤ) (bootstrap : List String)
      → Creates outer config is_leader
          (create_sequencer outer config port bootstrap is_leader false)
  unfolding create_sequencer
  create_sequencer-Creates config port bootstrap =
      created config bootstrap (new_node outer.libp2p port bootstrap false)
        (new_node-Starts outer.libp2p Sequencer port bootstrap)
