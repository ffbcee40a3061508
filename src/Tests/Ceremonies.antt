-- ===== src/Tests/Ceremonies.antt =====
-- The theorems about the Powers of Tau ceremony at concrete inputs.
use zkrollup_go.Base.{
  ◌≡◌, refl, none, some, [], ◌∷◌, Bool, true, false, not, ◌&&◌, nat_eqb, string_eq,
}
use zkrollup_go.Base.Text.{sort_strings}
use zkrollup_go.Outcome.{Outcome, ok, err, panic}
use zkrollup_go.Base.Int.{pos, ◌+ℤ◌}
use zkrollup_go.Consensus.Ceremony.{
  FilePath, PTauCeremonyState, PTauContributionMessage, step_file, temp_file, finished, Tools,
  add_contribution, verify_contribution, check_turn, new_ptau_ceremony_state,
}
use zkrollup_go.Consensus.Ceremony.Turns.{
  Contributes, Verifies, add_contribution-Contributes, verify_contribution-Verifies,
}
use zkrollup_go.Consensus.Types.{ConsensusMessage, crs_contribution, crs_ceremony_complete}
use zkrollup_go.Consensus.Pbft.{Pbft, Environment, message, new_pbft, broadcast}
use zkrollup_go.Consensus.Crs.{
  handle_crs_contribution, complete, handle_crs_ceremony_complete, is_complete, start_crs_ceremony,
  contribute_to_crs_ceremony, on_ceremony,
}
use zkrollup_go.Consensus.Crs.Closing.{Handles, handle_crs_contribution-Handles}
use zkrollup_go.Tests.Agreement.{net, node, snarkjs}

abbrev copied : FilePath
copied = record { dir = "tmp"; name = temp_file 1 }

-- tools that find every contribution valid
abbrev trusting : Tools
trusting = record snarkjs { verify = λ bytes. finished copied true }

abbrev ceremony : PTauCeremonyState
ceremony = record {
  epoch_number = 1;
  participants = "a" ∷ "b" ∷ "c" ∷ [];
  current_step = pos 0;
  ptau_path = record { dir = "crs"; name = step_file 1 (pos 0) };
  power_size = 12;
  completed = false;
}

abbrev contribution : PTauContributionMessage
contribution = record {
  epoch_number = 1;
  step = pos 0;
  ptau_file_path = copied;
  ptau_file_data = 1 ∷ [];
  contributor_id = "a";
}

abbrev carrier : ConsensusMessage
carrier = record (message crs_contribution 0 "" (new_pbft "a" false)) {
  epoch_number = 1;
  contribution_msg = some contribution;
}

abbrev participant : Pbft
participant = record (node false) { ptau_state = some ceremony; current_epoch = 1 }

add_contribution-Contributes_example :
    Contributes trusting "a" "entropy" ceremony (add_contribution trusting "a" "entropy" ceremony)
add_contribution-Contributes_example = add_contribution-Contributes trusting ceremony "a" "entropy"

verify_contribution-Verifies_example :
    Verifies trusting contribution ceremony (verify_contribution trusting contribution ceremony)
verify_contribution-Verifies_example = verify_contribution-Verifies trusting ceremony contribution

abbrev trusting_net : Environment
trusting_net = record net { tools = trusting }

handle_crs_contribution-Handles_example :
    Handles trusting participant ceremony contribution
      (handle_crs_contribution trusting_net carrier participant)
handle_crs_contribution-Handles_example =
    handle_crs_contribution-Handles trusting_net carrier participant ceremony contribution refl refl

-- whether a run has ended, with the ceremony past its last step but not completed, and no signal
abbrev left_over : Outcome Pbft (Unit {0}) → Bool
left_over (ok _ q) = elim q.ptau_state [
  | none ↦ false
  | some s ↦ is_complete s && not s.completed && nat_eqb q.ceremony_signals 0
]
left_over (err e q) = false
left_over panic = false

-- A leader on its own contributes to its ceremony and never completes it.
alone_unfinished : left_over (start_crs_ceremony trusting_net (new_pbft "a" true)) ≡ true
unfolding start_crs_ceremony contribute_to_crs_ceremony on_ceremony add_contribution
    new_ptau_ceremony_state check_turn broadcast new_pbft sort_strings ◌+ℤ◌
alone_unfinished = refl

abbrev is_completed : Outcome Pbft (Unit {0}) → Bool
is_completed (ok _ q) = elim q.ptau_state [ none ↦ false | some s ↦ s.completed ]
is_completed (err e q) = false
is_completed panic = false

-- A message of any node completes a ceremony to which nobody has contributed, with any bytes.
completed_by_anyone :
    is_completed (
      handle_crs_ceremony_complete trusting_net
        (record (message crs_ceremony_complete 0 "" (new_pbft "z" false)) { epoch_number = 1 })
        participant)
    ≡ true
unfolding handle_crs_ceremony_complete complete new_pbft
completed_by_anyone = refl
