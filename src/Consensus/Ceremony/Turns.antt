-- ===== src/Consensus/Ceremony/Turns.antt =====
-- AddContribution and VerifyContribution: whose turn it is, and how the step moves.
use zkrollup_go.Base.{nat_eq, ◌≡◌, ◌⊎◌, String, none, some, true, false, arith}
use zkrollup_go.Base.Int.{pos, ◌+ℤ◌, ◌-ℤ◌}
use zkrollup_go.Outcome.{Outcome, ok, err, panic, not_our_turn, ceremony_failed, file_failed}
use zkrollup_go.Consensus.Ceremony.{
  FilePath, step_file, PTauCeremonyState, PTauContributionMessage, Tools, finished, check_turn,
  add_contribution, verify_contribution, is_near, check_verdict,
}

-- The epoch and the participants are as before.
abbrev pub IsSameCeremony : PTauCeremonyState → PTauCeremonyState → Type 0
IsSameCeremony s s' = (s'.epoch_number ≡ s.epoch_number) × (s'.participants ≡ s.participants)

-- The file that the contribution at a step is written to.
abbrev pub output_of : PTauCeremonyState → FilePath
output_of s = record {
  dir = s.ptau_path.dir;
  name = step_file s.epoch_number (s.current_step +ℤ pos 1);
}

-- How AddContribution ends: with what the tool wrote to the file, or with the error of the first
-- thing that fails.
abbrev pub Contributes :
    Tools
    → String
    → String
    → PTauCeremonyState
    → Outcome PTauCeremonyState PTauContributionMessage
    → Type 0
Contributes tools id entropy s (ok msg s') =
    (check_turn id s ≡ true)
    × (tools.contribute s.ptau_path (output_of s) id entropy ≡ true)
    × (tools.read_file (output_of s) ≡ some msg.ptau_file_data)
    × IsSameCeremony s s'
    × (s'.current_step ≡ s.current_step +ℤ pos 1)
    × (s'.ptau_path ≡ output_of s)
    × (msg.ptau_file_path ≡ output_of s)
    × (msg.step ≡ s'.current_step -ℤ pos 1)
    × (msg.epoch_number ≡ s.epoch_number)
    × (msg.contributor_id ≡ id)
Contributes tools id entropy s (err e s') =
    (e ≡ not_our_turn) × (check_turn id s ≡ false) × (s' ≡ s)
    ⊎ (e ≡ ceremony_failed)
      × (check_turn id s ≡ true)
      × (tools.contribute s.ptau_path (output_of s) id entropy ≡ false)
      × (s' ≡ s)
    ⊎ (e ≡ file_failed)
      × (check_turn id s ≡ true)
      × (tools.contribute s.ptau_path (output_of s) id entropy ≡ true)
      × (tools.read_file (output_of s) ≡ none)
      × IsSameCeremony s s'
      × (s'.current_step ≡ s.current_step +ℤ pos 1)
      × (s'.ptau_path ≡ output_of s)
Contributes tools id entropy s panic = ⊥

-- How VerifyContribution ends.
abbrev pub Verifies :
    Tools
    → PTauContributionMessage
    → PTauCeremonyState
    → Outcome PTauCeremonyState (Unit {0})
    → Type 0
Verifies tools msg s (ok _ s') =
    IsSameCeremony s s'
    × (s'.current_step ≡ s.current_step)
    × (msg.epoch_number ≡ s.epoch_number)
    × (is_near msg.step s.current_step ≡ true)
    × (tools.verify msg.ptau_file_data ≡ finished s'.ptau_path true)
Verifies tools msg s (err e s') = IsSameCeremony s s' × (s'.current_step ≡ s.current_step)
Verifies tools msg s panic = ⊥

module _ (tools : Tools) (s : PTauCeremonyState) where
  -- A contribution is made only by the participant whose turn it is, and moves the ceremony on by
  -- one step; the message has what the tool wrote, and names the step that it was made at. It fails,
  -- and leaves the ceremony as it is, out of turn and where the tool fails; where the file that the
  -- tool wrote cannot be read it fails too, but the step has moved on. It never panics.
  pub add_contribution-Contributes :
      (id entropy : String) → Contributes tools id entropy s (add_contribution tools id entropy s)
  unfolding add_contribution
  add_contribution-Contributes id entropy = ground arith

  -- A contribution passes only if it is of this epoch, of the step that the ceremony is at or of one
  -- next to it, and the tool finds it valid; whether it passes or not, the step, the epoch and the
  -- participants are as before. There is no panic.
  pub verify_contribution-Verifies :
      (msg : PTauContributionMessage) → Verifies tools msg s (verify_contribution tools msg s)
  unfolding verify_contribution check_verdict
  verify_contribution-Verifies msg = ground (arith, nat_eq.eqb_iff msg.epoch_number s.epoch_number)
