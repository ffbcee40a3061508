-- ===== src/Consensus/Crs/Progress.antt =====
-- handleCRSContribution up to where it gives the lock back: how a message moves the ceremony.
use zkrollup_go.Base.{◌≡◌, refl, ◌∙◌, inl, inr, some, true, not, Bool-cases, ◌==◌, nat_eq}
use zkrollup_go.Base.Int.{pos, ◌+ℤ◌}
use zkrollup_go.Outcome.{
  Outcome, ok, err, panic, bind_ok, bind_err, raise_if, or_panic, no_ceremony, ◌>>◌,
}
use zkrollup_go.Consensus.Ceremony.{
  PTauCeremonyState, PTauContributionMessage, verify_contribution, is_near,
}
use zkrollup_go.Consensus.Ceremony.Turns.{Verifies, IsSameCeremony, verify_contribution-Verifies}
use zkrollup_go.Consensus.Types.{ConsensusMessage}
use zkrollup_go.Consensus.Pbft.{Pbft, Environment}
use zkrollup_go.Consensus.Crs.{accept_contribution, on_ceremony, or_raise, save, checked}

-- How the acceptance of a contribution ends, for a ceremony that is under way.
abbrev pub Accepts : PTauCeremonyState → PTauContributionMessage → Outcome Pbft (Unit {0}) → Type 0
Accepts s c (ok _ q) =
    (t : PTauCeremonyState) × (q.ptau_state ≡ some t)
    × IsSameCeremony s t
    × (t.current_step ≡ c.step +ℤ pos 1)
    × (is_near c.step s.current_step ≡ true)
Accepts s c (err e q) =
    (t : PTauCeremonyState) × (q.ptau_state ≡ some t)
    × IsSameCeremony s t
    × (t.current_step ≡ s.current_step)
Accepts s c panic = ⊥

-- The write of the file, on a ceremony that has passed the verification.
save-Accepts :
    (env : Environment) (msg : ConsensusMessage) (s s' : PTauCeremonyState)
    (c : PTauContributionMessage) (p : Pbft)
    → p.ptau_state ≡ some s'
    → Verifies env.tools c s (ok tt s')
    → Accepts s c (save env msg c p)
unfolding save
save-Accepts env msg s s' c p there v =
    elim (Bool-cases (env.tools.write_file s'.ptau_path msg.ptau_file_data)) [
      | inr fails ↦ rw (there) (rw (fails) (s', refl, v.0, v.1))
      | inl saved ↦ rw (there) (rw (saved) (_, refl, v.0, refl, v.3))
    ]

module _ (env : Environment) (msg : ConsensusMessage) (p : Pbft) (s : PTauCeremonyState)
    (c : PTauContributionMessage) (under_way : p.ptau_state ≡ some s)
    (sent : msg.contribution_msg ≡ some c) where
  -- up to the check of the epoch
  accept_begins :
      accept_contribution env msg p
      ≡ (raise_if (not (p.current_epoch == msg.epoch_number)) no_ceremony >> checked env msg s) p
  unfolding accept_contribution
  accept_begins =
      bind_ok p (or_raise no_ceremony p.ptau_state) _ s p (rw (under_way, or_raise) refl)

  -- up to the end of the verification
  accept_verifies :
      checked env msg s p ≡ (on_ceremony s (verify_contribution env.tools c) >> save env msg c) p
  unfolding checked
  accept_verifies = bind_ok p (or_panic msg.contribution_msg) _ c p (rw (sent, or_panic) refl)

  checked-Accepts :
      (r : Outcome PTauCeremonyState (Unit {0}))
      → verify_contribution env.tools c s ≡ r
      → Verifies env.tools c s r
      → Accepts s c (checked env msg s p)
  unfolding on_ceremony
  checked-Accepts (ok _ s') e v =
      rw
        (accept_verifies
          ∙ bind_ok p (on_ceremony s (verify_contribution env.tools c)) _ tt
              (record p { ptau_state = some s' }) (rw (on_ceremony, e) refl))
        (save-Accepts env msg s s' c (record p { ptau_state = some s' }) refl v)
  checked-Accepts (err x s') e v =
      rw
        (accept_verifies
          ∙ bind_err p (on_ceremony s (verify_contribution env.tools c)) _ x
              (record p { ptau_state = some s' }) (rw (on_ceremony, e) refl))
        (s', refl, v.0, v.1)
  checked-Accepts panic e v = absurd v

  -- While a ceremony is under way, a message with a contribution never makes this part of the handler
  -- panic. If it is accepted, its step is the ceremony's or one next to it, and the ceremony moves to the step after
  -- it: so back to where it is, on by one, or on by two past a participant. If not, the ceremony
  -- stays at its step.
  pub accept_contribution-Accepts : Accepts s c (accept_contribution env msg p)
  accept_contribution-Accepts = elim (Bool-cases (p.current_epoch == msg.epoch_number)) [
    | inr other ↦
        rw
          (accept_begins
            ∙ bind_err p (raise_if (not (p.current_epoch == msg.epoch_number)) no_ceremony) _
                no_ceremony p (rw (other) refl))
          (s, under_way, (refl, refl), refl)
    | inl same ↦
        rw
          (accept_begins
            ∙ bind_ok p (raise_if (not (p.current_epoch == msg.epoch_number)) no_ceremony) _ tt p
                (rw (same) refl))
          (checked-Accepts (verify_contribution env.tools c s) refl
            (verify_contribution-Verifies env.tools s c))
  ]
