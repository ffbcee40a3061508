-- ===== src/Consensus/Crs/Turn.antt =====
-- contributeToCRSCeremony: how the node's own turn moves its ceremony.
use zkrollup_go.Base.{
  ◌≡◌, ◌⊎◌, refl, sym, ap, ◌∙◌, inl, inr, String, Option, none, some, true, false, not, ℕ, List,
  Bool-cases, if◌then◌else◌,
}
use zkrollup_go.Base.Int.{ℤ, pos, ◌+ℤ◌}
use zkrollup_go.Outcome.{
  M, Outcome, Error, ok, err, panic, pure, raise_if, or_panic, no_ceremony, not_our_turn,
}
use zkrollup_go.Outcome.Returns.{Reaches, Yields, Yields-Reaches, bind_Reaches}
use zkrollup_go.Consensus.Ceremony.{
  FilePath, Tools, PTauCeremonyState, PTauContributionMessage, check_turn, add_contribution,
}
use zkrollup_go.Consensus.Ceremony.Turns.{
  Contributes, output_of, IsSameCeremony, add_contribution-Contributes,
}
use zkrollup_go.Consensus.Types.{ConsensusMessage}
use zkrollup_go.Consensus.Pbft.{Pbft, Environment, broadcast}
use zkrollup_go.Consensus.Crs.{
  on_ceremony, or_raise, dropped, is_our_turn, contribute_to_crs_ceremony,
}

-- some call of the tool for a contribution of the participant fails
abbrev pub ToolFails : Tools → String → Type 0
ToolFails tools id =
    (path : FilePath) × (output : FilePath) × (entropy : String) × (tools.contribute path output id
        entropy
      ≡ false)

-- The ceremony `s`, at the step where it is not the participant's turn or the tool fails, and one
-- step further where it is its turn.
abbrev pub Moves : Tools → String → PTauCeremonyState → ℤ → PTauCeremonyState → Type 0
Moves tools id s step t =
    IsSameCeremony s t
    × ((t.current_step ≡ step)
          × (check_turn id (record s { current_step = step }) ≡ false ⊎ ToolFails tools id)
        ⊎ (t.current_step ≡ step +ℤ pos 1)
          × (check_turn id (record s { current_step = step }) ≡ true))

-- the ceremony `s`, at the step
abbrev pub IsStep : PTauCeremonyState → ℤ → PTauCeremonyState → Type 0
IsStep s step t = IsSameCeremony s t × (t.current_step ≡ step)

-- The node has a ceremony, with the predicate.
abbrev pub Has : (PTauCeremonyState → Type 0) → Pbft → Type 0
Has P q = (t : PTauCeremonyState) × (q.ptau_state ≡ some t) × P t

-- the parts of the handlers, for any predicate on the ceremony
module _ (env : Environment) (P : PTauCeremonyState → Type 0) where
  pub broadcast-Has :
      (msg : ConsensusMessage) (q : Pbft)
      → Has P q
      → Yields (λ _. Has P) (Has P) (broadcast env msg q)
  unfolding broadcast
  broadcast-Has msg q h = elim (Bool-cases (env.network q.broadcasts msg)) [
    | inl sent ↦ rw (sent) h
    | inr lost ↦ rw (lost) h
  ]

  pub ceremony-Has :
      (E : Pbft → Type 0) (e : Error) (q : Pbft)
      → Has P q
      → Yields (λ t q'. P t × Has P q') E (or_raise e q.ptau_state q)
  unfolding or_raise
  ceremony-Has E e q (t, there, is) = rw (there) (is, (t, refl, is))

  pub present-Has :
      (E : Pbft → Type 0) (q : Pbft) → Has P q → Yields (λ _. Has P) E (or_panic q.ptau_state q)
  present-Has E q (t, there, is) = rw (there) (t, refl, is)

  pub bytes-Has :
      (e : Error) (read : Option (List ℕ)) (q : Pbft)
      → Has P q
      → Yields (λ _. Has P) (Has P) (or_raise e read q)
  unfolding or_raise
  bytes-Has e none q h = h
  bytes-Has e (some bytes) q h = h

  pub on_ceremony-Has :
      {A : Type 0} (t : PTauCeremonyState) (run : M PTauCeremonyState A) (q : Pbft)
      → Reaches P (run t)
      → Yields (λ _. Has P) (Has P) (on_ceremony t run q)
  unfolding on_ceremony
  on_ceremony-Has {A} t run q h = go (run t) h
    where
      go :
          (r : Outcome PTauCeremonyState A)
          → Reaches P r
          → Yields
              (λ _. Has P)
              (Has P)
              (elim r [
                | ok a t' ↦ ok a (record q { ptau_state = some t' })
                | err e t' ↦ err e (record q { ptau_state = some t' })
                | panic ↦ panic
              ])
      go (ok a t') h = (t', refl, h)
      go (err e t') h = (t', refl, h)
      go panic h = h

module _ (env : Environment) (id : String) (s : PTauCeremonyState) (step : ℤ) where
  abbrev Moved : Pbft → Type 0
  Moved = Has (Moves env.tools id s step)

  same_turn :
      (t : PTauCeremonyState)
      → IsStep s step t
      → check_turn id t ≡ check_turn id (record s { current_step = step })
  unfolding check_turn
  same_turn t (same, at) =
      rw (at)
        (ap (λ ps. check_turn id (record s { current_step = step; participants = ps })) same.1)

  add_contribution-Moves :
      (entropy : String) (t : PTauCeremonyState)
      → IsStep s step t
      → Reaches (Moves env.tools id s step) (add_contribution env.tools id entropy t)
  add_contribution-Moves entropy t is =
      go (add_contribution env.tools id entropy t)
        (add_contribution-Contributes env.tools t id entropy)
    where
      further :
          (t' : PTauCeremonyState)
          → check_turn id t ≡ true
          → IsSameCeremony t t'
          → t'.current_step ≡ t.current_step +ℤ pos 1
          → Moves env.tools id s step t'
      further t' turn same moved = (
        (same.0 ∙ is.0.0, same.1 ∙ is.0.1),
        inr (moved ∙ ap (λ n. n +ℤ pos 1) is.1, sym (same_turn t is) ∙ turn),
      )

      go :
          (r : Outcome PTauCeremonyState PTauContributionMessage)
          → Contributes env.tools id entropy t r
          → Reaches (Moves env.tools id s step) r
      go (ok c t') h = further t' h.0 h.3 h.4
      go (err e t') h = elim h [
        | inl out ↦ rw (out.2) (is.0, inl (is.1, inl (sym (same_turn t is) ∙ out.1)))
        | inr (inl fails) ↦
            rw (fails.3) (is.0, inl (is.1, inr (t.ptau_path, output_of t, entropy, fails.2)))
        | inr (inr unread) ↦ further t' unread.1 unread.4 unread.5
      ]
      go panic h = h

  stays :
      (t : PTauCeremonyState)
      → IsStep s step t
      → check_turn id t ≡ false
      → Moves env.tools id s step t
  stays t is out = (is.0, inl (is.1, inl (sym (same_turn t is) ∙ out)))

  waits :
      (who : String) (t : PTauCeremonyState) (q : Pbft)
      → who ≡ id
      → q.ptau_state ≡ some t
      → IsStep s step t
      → Yields (λ _. Has (IsStep s step)) Moved (raise_if (not (check_turn who t)) not_our_turn q)
  waits who t q node there is = elim (Bool-cases (check_turn id t)) [
    | inl turn ↦ rw (node) (rw (turn) (t, there, is))
    | inr out ↦ rw (node) (rw (out) (t, there, stays t is out))
  ]

  current-IsStep :
      (E : Pbft → Type 0) (e : Error) (q : Pbft)
      → Has (IsStep s step) q
      → Yields (λ t q'. (q'.ptau_state ≡ some t) × IsStep s step t) E (or_raise e q.ptau_state q)
  unfolding or_raise
  current-IsStep E e q (t, there, is) = rw (there) (refl, is)

  contribute-Moves :
      (q : Pbft)
      → q.node_id ≡ id
      → Has (IsStep s step) q
      → Reaches Moved (contribute_to_crs_ceremony env q)
  unfolding contribute_to_crs_ceremony
  contribute-Moves q node h =
      bind_Reaches Moved (or_raise no_ceremony q.ptau_state) _ q
        (current-IsStep Moved no_ceremony q h)
        (λ t q1 (there, is).
          bind_Reaches Moved (raise_if (not (check_turn q.node_id t)) not_our_turn) _ q1
            (waits q.node_id t q1 node there is)
            (λ _ q2 h2.
              bind_Reaches Moved
                (on_ceremony t
                  (add_contribution env.tools q.node_id (env.entropy q.node_id q.current_epoch)))
                _ q2
                (on_ceremony-Has env (Moves env.tools id s step) t
                  (add_contribution env.tools q.node_id (env.entropy q.node_id q.current_epoch)) q2
                  (rw (node) (add_contribution-Moves (env.entropy id q.current_epoch) t is)))
                (λ c q3 h3.
                  Yields-Reaches Moved (broadcast env _ q3)
                    (broadcast-Has env (Moves env.tools id s step) _ q3 h3))))

  dropped-Moves :
      (run : M Pbft (Unit {0})) (q : Pbft)
      → Reaches Moved (run q)
      → Yields (λ _. Moved) Moved (dropped run q)
  unfolding dropped
  dropped-Moves run q h = go (run q) h
    where
      go :
          (r : Outcome Pbft (Unit {0}))
          → Reaches Moved r
          → Yields
              (λ _. Moved)
              Moved
              (elim r [ ok _ q' ↦ ok tt q' | err _ q' ↦ ok tt q' | panic ↦ panic ])
      go (ok _ q') h = h
      go (err _ q') h = h
      go panic h = h

  -- the node's own turn, if it has come
  our_turn :
      (q : Pbft) → q.node_id ≡ id → (h : Has (IsStep s step) q) → is_our_turn q ≡ check_turn id h.0
  our_turn q node h = rw (h.1) (rw (node) refl)

  pub turn-Moves :
      (q : Pbft)
      → q.node_id ≡ id
      → Has (IsStep s step) q
      → Yields
          (λ _. Moved)
          Moved
          ((if is_our_turn q then dropped (contribute_to_crs_ceremony env) else pure tt) q)
  turn-Moves q node h = elim (Bool-cases (is_our_turn q)) [
    | inl turn ↦
        rw (turn) (dropped-Moves (contribute_to_crs_ceremony env) q (contribute-Moves q node h))
    | inr out ↦ rw (out) (h.0, h.1, stays h.0 h.2 (sym (our_turn q node h) ∙ out))
  ]
