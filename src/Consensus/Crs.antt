-- ===== src/Consensus/Crs.antt =====
-- pkg/consensus/pbft.go: the handlers of the Powers of Tau ceremony. The channel that signals its
-- end is a count of the offers to it. A nil pointer that is dereferenced is a panic.
pub mod Isolation
pub mod Progress
pub mod Turn
pub mod Closing
use zkrollup_go.Base.{
  ℕ, ◌+◌, Option, none, some, Bool, true, false, not, ◌&&◌, ◌||◌, nat_eqb, if◌then◌else◌, length,
  ◌==◌, string_eq, nat_eq,
}
use zkrollup_go.Base.Int.{pos, ◌+ℤ◌, ltb_ℤ}
use zkrollup_go.Base.Text.{sort_strings}
use zkrollup_go.Outcome.{
  M, Error, ok, err, panic, pure, raise, gets, or_panic, raise_if, modify, ◌>>=◌, ◌>>◌, not_leader,
  no_participants, ceremony_failed, no_ceremony, not_our_turn, file_failed,
}
use zkrollup_go.State.{u64}
use zkrollup_go.Consensus.Types.{
  ConsensusMessage, crs_ceremony_start, crs_contribution, crs_ceremony_complete,
}
use zkrollup_go.Consensus.Ceremony.{
  PTauContributionMessage, FilePath, PTauCeremonyState, check_turn, new_ptau_ceremony_state,
  add_contribution, verify_contribution, finalize_ceremony, final_file,
}
use zkrollup_go.Consensus.Pbft.{Pbft, Environment, message, broadcast}

pub or_raise : {A : Type 0} → Error → Option A → M Pbft A
or_raise e none = raise e
or_raise e (some a) = pure a

-- A method of the ceremony's state, whose writes stay when it fails.
unfoldable pub on_ceremony : {A : Type 0} → PTauCeremonyState → M PTauCeremonyState A → M Pbft A
on_ceremony s run p = elim (run s) [
  | ok a s' ↦ ok a (record p { ptau_state = some s' })
  | err e s' ↦ err e (record p { ptau_state = some s' })
  | panic ↦ panic
]

-- An error that the caller drops.
unfoldable pub dropped : M Pbft (Unit {0}) → M Pbft (Unit {0})
dropped run p = elim (run p) [ ok _ p' ↦ ok tt p' | err _ p' ↦ ok tt p' | panic ↦ panic ]

-- `CheckTurn` on the state of the ceremony that is under way
abbrev pub is_our_turn : Pbft → Bool
is_our_turn p = elim p.ptau_state [ none ↦ false | some s ↦ check_turn p.node_id s ]

-- `CurrentStep >= len(Participants)`
abbrev pub is_complete : PTauCeremonyState → Bool
is_complete s = not (ltb_ℤ s.current_step (pos (length s.participants)))

-- what the end of a ceremony changes, where it is the current one
unfoldable pub complete : ℕ → FilePath → Option PTauCeremonyState → Pbft → Pbft
complete epoch final_path none p = p
complete epoch final_path (some s) p =
    if p.current_epoch == epoch
    then record p { ptau_state = some (record s { completed = true; ptau_path = final_path }) }
    else p

module _ (env : Environment) where
  -- `contributeToCRSCeremony`
  unfoldable pub contribute_to_crs_ceremony : M Pbft (Unit {0})
  unfolding or_raise
  contribute_to_crs_ceremony = do
    p ← gets (λ p. p)
    s ← or_raise no_ceremony p.ptau_state
    raise_if (not (check_turn p.node_id s)) not_our_turn
    contribution ←
        on_ceremony s (add_contribution env.tools p.node_id (env.entropy p.node_id p.current_epoch))
    broadcast env (record (message crs_contribution p.sequence "" p) {
      epoch_number = p.current_epoch;
      contribution_msg = some contribution;
      ptau_file_data = contribution.ptau_file_data;
    })

  -- `StartCRSCeremony`
  unfoldable pub start_crs_ceremony : M Pbft (Unit {0})
  unfolding or_raise
  start_crs_ceremony = do
    raise_if (not (← gets (λ p. p.is_leader))) not_leader
    modify (λ p. record p { current_epoch = u64 (p.current_epoch + 1) })
    p ← gets (λ p. p)
    let sorted = sort_strings p.node_ids
    s ←
        or_raise ceremony_failed
          (new_ptau_ceremony_state env.tools p.current_epoch sorted 12 env.ceremony_dir)
    modify (λ p. record p { ptau_state = some s })
    broadcast env (record (message crs_ceremony_start p.sequence "" p) {
      epoch_number = p.current_epoch;
      participants = sorted;
    })
    if check_turn p.node_id s then contribute_to_crs_ceremony else pure tt

  -- `handleCRSCeremonyStart`
  unfoldable pub handle_crs_ceremony_start : ConsensusMessage → M Pbft (Unit {0})
  unfolding or_raise
  handle_crs_ceremony_start msg = do
    raise_if (nat_eqb (length msg.participants) 0) no_participants
    s ←
        or_raise ceremony_failed
          (new_ptau_ceremony_state env.tools msg.epoch_number msg.participants 12 env.ceremony_dir)
    modify (λ p. record p { ptau_state = some s; current_epoch = msg.epoch_number })
    node_id ← gets (λ p. p.node_id)
    if check_turn node_id s then contribute_to_crs_ceremony else pure tt

  -- `finalizeCRSCeremony`
  unfoldable pub finalize_crs_ceremony : M Pbft (Unit {0})
  unfolding or_raise
  finalize_crs_ceremony = do
    p ← gets (λ p. p)
    s ← or_raise no_ceremony p.ptau_state
    final_path ← on_ceremony (record s { completed = true }) (finalize_ceremony env.tools)
    final_data ← or_raise file_failed (env.tools.read_file final_path)
    broadcast env (record (message crs_ceremony_complete p.sequence "" p) {
      epoch_number = p.current_epoch;
      ptau_file_data = final_data;
    })
    modify (λ p. record p { ceremony_signals = p.ceremony_signals + 1 })

  -- handleCRSContribution from the write of the file to where the lock is given back: the ceremony
  -- moves to the step after the message's.
  unfoldable pub save : ConsensusMessage → PTauContributionMessage → M Pbft (Unit {0})
  save msg contribution = do
    verified ← (λ p. or_panic p.ptau_state p)
    raise_if (not (env.tools.write_file verified.ptau_path msg.ptau_file_data)) file_failed
    let moved : PTauCeremonyState = record verified { current_step = contribution.step +ℤ pos 1 }
    modify (λ p. record p {
      ptau_state = some (record moved { completed = is_complete moved || moved.completed });
    })

  -- for a message of this epoch
  unfoldable pub checked : ConsensusMessage → PTauCeremonyState → M Pbft (Unit {0})
  checked msg s = do
    contribution ← or_panic msg.contribution_msg
    on_ceremony s (verify_contribution env.tools contribution)
    save msg contribution

  -- handleCRSContribution up to where the lock is given back
  unfoldable pub accept_contribution : ConsensusMessage → M Pbft (Unit {0})
  unfolding or_raise
  accept_contribution msg = do
    p ← gets (λ p. p)
    s ← or_raise no_ceremony p.ptau_state
    raise_if (not (p.current_epoch == msg.epoch_number)) no_ceremony
    checked msg s

  -- `handleCRSContribution`
  unfoldable pub handle_crs_contribution : ConsensusMessage → M Pbft (Unit {0})
  handle_crs_contribution msg = do
    accept_contribution msg
    our_turn ← gets is_our_turn
    if our_turn then dropped contribute_to_crs_ceremony else pure tt
    s ← (λ p. or_panic p.ptau_state p)
    is_leader ← gets (λ p. p.is_leader)
    if is_complete s && is_leader then finalize_crs_ceremony else pure tt

  -- `handleCRSCeremonyComplete`
  unfoldable pub handle_crs_ceremony_complete : ConsensusMessage → M Pbft (Unit {0})
  handle_crs_ceremony_complete msg = do
    let final_path : FilePath = record {
      dir = env.ceremony_dir;
      name = final_file msg.epoch_number;
    }
    raise_if (not (env.tools.write_file final_path msg.ptau_file_data)) file_failed
    modify (λ p. complete msg.epoch_number final_path p.ptau_state p)
    modify (λ p. record p { ceremony_signals = p.ceremony_signals + 1 })
