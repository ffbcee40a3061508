-- ===== src/Consensus/Ceremony.antt =====
-- pkg/consensus/crs_ceremony.go: the state of a Powers of Tau ceremony. The snarkjs commands and
-- the file system are the parameter `Tools`, which says how each call ends. A path is its
-- directory with one of the three kinds of names that the program forms.
pub mod Turns
use zkrollup_go.Base.{
  ℕ, List, Option, none, some, String, Bool, false, not, ◌||◌, if◌then◌else◌, get_elem?, ◌==◌,
  string_eq, nat_eq,
}
use zkrollup_go.Base.Int.{ℤ, pos, negsuc, ◌+ℤ◌, ◌-ℤ◌, eqb_ℤ}
use zkrollup_go.Outcome.{
  M, pure, raise, gets, raise_if, modify, ◌>>=◌, ◌>>◌, ceremony_failed, not_our_turn, wrong_epoch,
  wrong_step, bad_contribution, file_failed, not_completed,
}

-- `pot_epoch%d_%d.ptau`, `pot_epoch%d_final.ptau`, and a temporary file
pub data FileName : Type 0 where
  step_file : ℕ → ℤ → FileName
  final_file : ℕ → FileName
  temp_file : ℕ → FileName

pub record FilePath : Type 0 where
  pub dir : String
  pub name : FileName

pub record PTauCeremonyState : Type 0 where
  pub epoch_number : ℕ
  pub participants : List String
  pub current_step : ℤ
  pub ptau_path : FilePath
  pub power_size : ℕ
  pub completed : Bool

pub record PTauContributionMessage : Type 0 where
  pub epoch_number : ℕ
  pub step : ℤ
  pub ptau_file_path : FilePath
  pub ptau_file_data : List ℕ
  pub contributor_id : String

-- How `snarkjs powersoftau verify` of a temporary copy ends.
pub data Verdict : Type 0 where
  no_temp_file : Verdict
  command_failed : Verdict
  finished : FilePath → Bool → Verdict

-- What lies outside of the program. `none` is a failure; `contribute` may fail in the command or,
-- after it, in reading the file that it wrote.
pub record Tools : Type 0 where
  pub create : FilePath → ℕ → Bool
  pub contribute : FilePath → FilePath → String → String → Bool
  pub read_file : FilePath → Option (List ℕ)
  pub write_file : FilePath → List ℕ → Bool
  pub verify : List ℕ → Verdict
  pub beacon : FilePath → FilePath → Bool

-- `CheckTurn`; a step below 0 or past the list is nobody's turn.
unfoldable pub check_turn : String → PTauCeremonyState → Bool
check_turn node_id s = elim s.current_step [
  | negsuc _ ↦ false
  | pos k ↦ elim (get_elem? s.participants k) [ none ↦ false | some id ↦ id == node_id ]
]

-- a step that is the expected one, the one before or the one after
abbrev pub is_near : ℤ → ℤ → Bool
is_near step current =
    eqb_ℤ step current || eqb_ℤ step (current -ℤ pos 1) || eqb_ℤ step (current +ℤ pos 1)

module _ (tools : Tools) where
  -- `NewPTauCeremonyState`
  unfoldable pub new_ptau_ceremony_state : ℕ → List String → ℕ → String → Option PTauCeremonyState
  new_ptau_ceremony_state epoch participants power_size output_dir =
      let path : FilePath = record { dir = output_dir; name = step_file epoch (pos 0) } in
      if tools.create path power_size
      then some (record {
        epoch_number = epoch;
        participants = participants;
        current_step = pos 0;
        ptau_path = path;
        power_size = power_size;
        completed = false;
      })
      else none

  abbrev or_raise_read : Option (List ℕ) → M PTauCeremonyState (List ℕ)
  or_raise_read none = raise file_failed
  or_raise_read (some bytes) = pure bytes

  -- `AddContribution`
  unfoldable pub add_contribution : String → String → M PTauCeremonyState PTauContributionMessage
  add_contribution contributor_id entropy = do
    raise_if (not (← gets (check_turn contributor_id))) not_our_turn
    s ← gets (λ s. s)
    let next_step = s.current_step +ℤ pos 1
    let output_path : FilePath = record {
      dir = s.ptau_path.dir;
      name = step_file s.epoch_number next_step;
    }
    raise_if (not (tools.contribute s.ptau_path output_path contributor_id entropy)) ceremony_failed
    modify (λ s. record s { ptau_path = output_path; current_step = next_step })
    ptau_data ← or_raise_read (tools.read_file output_path)
    pure (record {
      epoch_number = s.epoch_number;
      step = next_step -ℤ pos 1;
      ptau_file_path = output_path;
      ptau_file_data = ptau_data;
      contributor_id = contributor_id;
    })

  check_verdict : Verdict → M PTauCeremonyState (Unit {0})
  check_verdict no_temp_file = raise file_failed
  check_verdict command_failed = raise bad_contribution
  check_verdict (finished path says_ok) = do
    modify (λ s. record s { ptau_path = path })
    raise_if (not says_ok) bad_contribution

  -- `VerifyContribution`
  unfoldable pub verify_contribution : PTauContributionMessage → M PTauCeremonyState (Unit {0})
  unfolding check_verdict
  verify_contribution msg = do
    s ← gets (λ s. s)
    raise_if (not (msg.epoch_number == s.epoch_number)) wrong_epoch
    raise_if (not (is_near msg.step s.current_step)) wrong_step
    check_verdict (tools.verify msg.ptau_file_data)

  -- `FinalizeCeremony`
  unfoldable pub finalize_ceremony : M PTauCeremonyState FilePath
  finalize_ceremony = do
    s ← gets (λ s. s)
    raise_if (not s.completed) not_completed
    let final_path : FilePath = record { dir = s.ptau_path.dir; name = final_file s.epoch_number }
    raise_if (not (tools.beacon s.ptau_path final_path)) ceremony_failed
    modify (λ s. record s { ptau_path = final_path })
    pure final_path
