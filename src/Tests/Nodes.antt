-- ===== src/Tests/Nodes.antt =====
-- The theorem about the whole program at concrete environment variables.
use zkrollup_go.Base.Int.{pos, ◌+ℤ◌}
use zkrollup_go.Settings.{launch, atoi, split_commas}
use zkrollup_go.Hashing.{parse_amount, parse_digits, of_digits}
use zkrollup_go.Base.{◌≡◌, refl, [], ◌∷◌, some, String, true, false, if◌then◌else◌, string_eq, ◌==◌}
use zkrollup_go.Sequencer.Startup.{Surroundings}
use zkrollup_go.Program.{run, Runs, run-Runs}
use zkrollup_go.Tests.Agreement.{net}
use zkrollup_go.Tests.Peers.{swarm, json}

abbrev outer : Surroundings
outer = record {
  env = net;
  libp2p = swarm;
  access = record {
    dials = λ url. true;
    address_of_key = λ key. some 7;
    hex_to_address = λ digits. 9;
    loads = λ contract. true;
  };
  makes_prover = true;
}

-- a leader that submits to the L1
abbrev getenv : String → String
getenv name =
    if name == "L1_PRIVATE_KEY"
    then "ab"
    else if name == "BOOTSTRAP_PEERS"
    then "b,c"
    else if name == "SEQUENCER_PORT"
    then "9001"
    else "true"

run-Runs_example : Runs outer getenv json (run outer getenv false)
run-Runs_example = run-Runs outer getenv json

launch_ports :
    ((launch getenv).port ≡ pos 9001)
    × ((launch getenv).rpc_port ≡ pos 10001)
    × ((launch getenv).bootstrap ≡ "b" ∷ "c" ∷ [])
unfolding launch atoi split_commas parse_amount parse_digits of_digits ◌+ℤ◌
launch_ports = (refl, refl, refl)
