-- ===== src/Consensus/Crs/Closing.antt =====
-- handleCRSContribution to its end, with the node's own contribution and the end of the ceremony.
use zkrollup_go.Base.{
  ◌+◌, ◌≡◌, ◌⊎◌, refl, sym, ap, ◌∙◌, inl, inr, Option, some, ℕ, true, false, Bool, ℕ, List,
  Bool-cases, ◌&&◌, if◌then◌else◌,
}
use zkrollup_go.Base.Int.{ℤ, pos, ◌+ℤ◌}
use zkrollup_go.Outcome.{
  file_failed, M, Outcome, ok, err, panic, pure, or_panic, gets, no_ceremony, ◌>>=◌,
}
use zkrollup_go.Outcome.Frame.{Leaves}
use zkrollup_go.Outcome.Returns.{
  Reaches, Yields, Yields-Reaches, bind_Yields, Yields-both, Yields-weaken,
}
use zkrollup_go.Consensus.Ceremony.{
  FilePath, Tools, PTauCeremonyState, PTauContributionMessage, final_file, is_near,
  finalize_ceremony,
}
use zkrollup_go.Consensus.Types.{ConsensusMessage}
use zkrollup_go.Consensus.Pbft.{Pbft, Environment, broadcast}
use zkrollup_go.Consensus.Crs.{
  accept_contribution, on_ceremony, or_raise, dropped, is_our_turn, is_complete,
  contribute_to_crs_ceremony, finalize_crs_ceremony, handle_crs_contribution,
}
use zkrollup_go.Consensus.Crs.Isolation.{
  accept_contribution-Keeps, own_contribution-Keeps, or_raise-Keeps, on_ceremony-Keeps,
  broadcast-Keeps,
}
use zkrollup_go.Consensus.Crs.Turn.{
  Moves, IsStep, Has, broadcast-Has, bytes-Has, on_ceremony-Has, turn-Moves,
}
use zkrollup_go.Consensus.Crs.Progress.{Accepts, accept_contribution-Accepts}

abbrev final_of : PTauCeremonyState → FilePath
final_of t = record { dir = t.ptau_path.dir; name = final_file t.epoch_number }

-- the offers to the channel, where the ceremony is past its last participant and the node leads
abbrev pub signals_after : Pbft → PTauCeremonyState → ℕ
signals_after p t =
    if is_complete t && p.is_leader then p.ceremony_signals + 1 else p.ceremony_signals

-- The ceremony has moved, and its end has been signalled if it has come.
abbrev pub Ends : Tools → Pbft → PTauCeremonyState → ℤ → Pbft → Type 0
Ends tools p s step q =
    (t : PTauCeremonyState) × (q.ptau_state ≡ some t)
    × Moves tools p.node_id s step t
    × (q.ceremony_signals ≡ signals_after p t)

module _ (env : Environment) (p : Pbft) (s : PTauCeremonyState) (step : ℤ) where
  abbrev IsMoved : PTauCeremonyState → Type 0
  IsMoved = Moves env.tools p.node_id s step

  -- the end of the ceremony has not been signalled yet
  abbrev IsQuiet : Pbft → Type 0
  IsQuiet q =
      (q.node_id ≡ p.node_id)
      × (q.ceremony_signals ≡ p.ceremony_signals)
      × (q.is_leader ≡ p.is_leader)

  quiet :
      (q : Pbft) (o : Option PTauCeremonyState) (log : List (ConsensusMessage × Bool))
      → IsQuiet q
      → IsQuiet (record q { ptau_state = o; broadcasts = log })
  quiet q o log h = h

  module _ (flag : Bool) where
    -- moved, and past its last participant or not
    abbrev IsAt : PTauCeremonyState → Type 0
    IsAt t = IsMoved t × (is_complete t ≡ flag)

    forget : (q : Pbft) → Has IsAt q → Has IsMoved q
    forget q (t, there, (moved, _)) = (t, there, moved)

    finalize_ceremony-IsAt :
        (t : PTauCeremonyState) → IsAt t → Reaches IsAt (finalize_ceremony env.tools t)
    unfolding finalize_ceremony
    finalize_ceremony-IsAt t is = elim (Bool-cases t.completed) [
      | inr unfinished ↦ rw (unfinished) is
      | inl done ↦ elim (Bool-cases (env.tools.beacon t.ptau_path (final_of t))) [
        | inr fails ↦ rw (done) (rw (fails) is)
        | inl made ↦ rw (done) (rw (made) is)
      ]
    ]

    abbrev IsSignalled : Pbft → Type 0
    IsSignalled q = Has IsAt q × (q.ceremony_signals ≡ p.ceremony_signals + 1)

    known-IsAt :
        (q : Pbft)
        → Has IsAt q
        → IsQuiet q
        → Yields (λ t q'. IsAt t × IsQuiet q') (Has IsMoved) (or_raise no_ceremony q.ptau_state q)
    unfolding or_raise
    known-IsAt q (t, there, is) before = rw (there) (is, before)

    quietly :
        {A : Type 0} (m : M Pbft A) (q : Pbft)
        → Yields (λ _. Has IsAt) (Has IsAt) (m q)
        → Leaves IsQuiet (m q)
        → Yields (λ _ q'. Has IsAt q' × IsQuiet q') (Has IsMoved) (m q)
    quietly m q h before =
        Yields-both (Has IsAt) IsQuiet (Has IsMoved) (m q) forget
          (Yields-Reaches (Has IsAt) (m q) h) before

    finalize-IsSignalled :
        (q : Pbft)
        → Has IsAt q
        → IsQuiet q
        → Yields (λ _. IsSignalled) (Has IsMoved) (finalize_crs_ceremony env q)
    unfolding finalize_crs_ceremony
    finalize-IsSignalled q h before =
        bind_Yields (λ _. IsSignalled) (Has IsMoved) (or_raise no_ceremony q.ptau_state) _ q
          (known-IsAt q h before)
          (λ t q1 (is, b1).
            let done : PTauCeremonyState = record t { completed = true } in
            bind_Yields (λ _. IsSignalled) (Has IsMoved)
              (on_ceremony done (finalize_ceremony env.tools)) _ q1
              (quietly (on_ceremony done (finalize_ceremony env.tools)) q1
                (on_ceremony-Has env IsAt done (finalize_ceremony env.tools) q1
                  (finalize_ceremony-IsAt done is))
                ((on_ceremony-Keeps IsQuiet quiet done (finalize_ceremony env.tools)).run q1 b1))
              (λ path q2 (h2, b2).
                bind_Yields (λ _. IsSignalled) (Has IsMoved)
                  (or_raise file_failed (env.tools.read_file path)) _ q2
                  (quietly (or_raise file_failed (env.tools.read_file path)) q2
                    (bytes-Has env IsAt file_failed (env.tools.read_file path) q2 h2)
                    ((or_raise-Keeps IsQuiet quiet file_failed (env.tools.read_file path)).run q2
                      b2))
                  (λ bytes q3 (h3, b3).
                    bind_Yields (λ _. IsSignalled) (Has IsMoved) (broadcast env _) _ q3
                      (quietly (broadcast env _) q3 (broadcast-Has env IsAt _ q3 h3)
                        ((broadcast-Keeps IsQuiet quiet env _).run q3 b3))
                      (λ _ q4 (h4, b4). (h4, ap (λ n. n + 1) b4.1)))))

  counts :
      (t : PTauCeremonyState) (over : Bool)
      → is_complete t && p.is_leader ≡ over
      → signals_after p t ≡ (if over then p.ceremony_signals + 1 else p.ceremony_signals)
  counts t over e = rw (e) refl

  closing-Ends :
      (q : Pbft)
      → Has IsMoved q
      → IsQuiet q
      → Yields
          (λ _. Ends env.tools p s step)
          (Has IsMoved)
          ((do
            t ← (λ p. or_panic p.ptau_state p)
            is_leader ← gets (λ p. p.is_leader)
            if is_complete t && is_leader then finalize_crs_ceremony env else pure tt)
            q)
  closing-Ends q (t, there, moved) before =
      bind_Yields (λ _. Ends env.tools p s step) (Has IsMoved) (λ p. or_panic p.ptau_state p) _ q
        (current t q there before)
        (λ t1 q1 (same, there1, b1).
          ending t1 q1 there1 (rw (same) moved) b1 (Bool-cases (is_complete t1 && q1.is_leader)))
    where
      current :
          (t : PTauCeremonyState) (q : Pbft)
          → q.ptau_state ≡ some t
          → IsQuiet q
          → Yields
              (λ t1 q1. (t1 ≡ t) × (q1.ptau_state ≡ some t1) × IsQuiet q1)
              (Has IsMoved)
              (or_panic q.ptau_state q)
      current t q there before = rw (there) (refl, refl, before)

      ending :
          (t : PTauCeremonyState) (q : Pbft)
          → q.ptau_state ≡ some t
          → IsMoved t
          → IsQuiet q
          → (is_complete t && q.is_leader ≡ true) ⊎ (is_complete t && q.is_leader ≡ false)
          → Yields
              (λ _. Ends env.tools p s step)
              (Has IsMoved)
              ((if is_complete t && q.is_leader then finalize_crs_ceremony env else pure tt) q)
      ending t q there moved before (inl over) = rw (over) (
          Yields-weaken (λ _. IsSignalled (is_complete t)) (λ _. Ends env.tools p s step)
            (Has IsMoved) (finalize_crs_ceremony env q)
            (λ _ q' ((t', there', (moved', same)), counted). (
              t',
              there',
              moved',
              counted ∙ sym (counts t' true (rw (same) (rw (← before.2) over))),
            ))
            (finalize-IsSignalled (is_complete t) q (t, there, (moved, refl)) before))
      ending t q there moved before (inr open_end) =
          rw (open_end)
            (t, there, moved, before.1 ∙ sym (counts t false (rw (← before.2) open_end)))

-- How a message with a contribution ends at the node, for a ceremony that is under way.
abbrev pub Handles :
    Tools → Pbft → PTauCeremonyState → PTauContributionMessage → Outcome Pbft (Unit {0}) → Type 0
Handles tools p s c (ok _ q) =
    (is_near c.step s.current_step ≡ true) × Ends tools p s (c.step +ℤ pos 1) q
Handles tools p s c (err e q) =
    Has (IsStep s s.current_step) q
    ⊎ (is_near c.step s.current_step ≡ true) × Has (Moves tools p.node_id s (c.step +ℤ pos 1)) q
Handles tools p s c panic = ⊥

module _ (env : Environment) (msg : ConsensusMessage) (p : Pbft) (s : PTauCeremonyState)
    (c : PTauContributionMessage) where
  abbrev next : ℤ
  next = c.step +ℤ pos 1

  then_Handles :
      (rest : M Pbft (Unit {0}))
      → ((q : Pbft)
          → IsQuiet env p s next q
          → Has (IsStep s next) q
          → Yields (λ _. Ends env.tools p s next) (Has (Moves env.tools p.node_id s next)) (rest q))
      → (r : Outcome Pbft (Unit {0})) → Accepts s c r
      → Leaves (IsQuiet env p s next) r
      → Handles env.tools p s c (elim r [ ok _ q ↦ rest q | err e q ↦ err e q | panic ↦ panic ])
  then_Handles rest h (ok _ q) (t, there, same, at, near) before =
      go (rest q) (h q before (t, there, (same, at)))
    where
      go :
          (r : Outcome Pbft (Unit {0}))
          → Yields (λ _. Ends env.tools p s next) (Has (Moves env.tools p.node_id s next)) r
          → Handles env.tools p s c r
      go (ok _ q') moved = (near, moved)
      go (err _ q') moved = inr (near, moved)
      go panic moved = moved
  then_Handles rest h (err e q) (t, there, same, at) before = inl (t, there, (same, at))
  then_Handles rest h panic accepts before = accepts

  turn-IsQuiet :
      (our_turn : Bool) (q : Pbft)
      → IsQuiet env p s next q
      → Leaves
          (IsQuiet env p s next)
          ((if our_turn then dropped (contribute_to_crs_ceremony env) else pure tt) q)
  turn-IsQuiet true q before =
      (own_contribution-Keeps (IsQuiet env p s next) (quiet env p s next) env).run q before
  turn-IsQuiet false q before = before

  -- While a ceremony is under way, a message with a contribution never makes a node panic. If the
  -- handler succeeds, the step of the message is the step of the ceremony or one next to it, and the
  -- ceremony moves to the step after it: so back to where it is, on by one, or on by two past a
  -- participant. It moves on by one more only where it is then the turn of the node itself, and does
  -- not only where it is not, or where some call of the tool for a contribution of the node fails.
  -- The end of the ceremony is signalled exactly where it is then past its last participant and the
  -- node leads. If the handler fails, either the ceremony has stayed at its step, or it has moved in
  -- this way. In all cases, the epoch and the participants are as before.
  pub handle_crs_contribution-Handles :
      p.ptau_state ≡ some s
      → msg.contribution_msg ≡ some c
      → Handles env.tools p s c (handle_crs_contribution env msg p)
  unfolding handle_crs_contribution
  handle_crs_contribution-Handles under_way sent =
      then_Handles _
        (λ q before at.
          bind_Yields (λ _. Ends env.tools p s next) (Has (Moves env.tools p.node_id s next))
            (if is_our_turn q then dropped (contribute_to_crs_ceremony env) else pure tt) _ q
            (Yields-both (Has (Moves env.tools p.node_id s next)) (IsQuiet env p s next)
              (Has (Moves env.tools p.node_id s next))
              ((if is_our_turn q then dropped (contribute_to_crs_ceremony env) else pure tt) q)
              (λ q' moved. moved)
              (Yields-Reaches (Has (Moves env.tools p.node_id s next))
                ((if is_our_turn q then dropped (contribute_to_crs_ceremony env) else pure tt) q)
                (turn-Moves env p.node_id s next q before.0 at))
              (turn-IsQuiet (is_our_turn q) q before))
            (λ _ q1 (h1, b1). closing-Ends env p s next q1 h1 b1))
        (accept_contribution env msg p) (accept_contribution-Accepts env msg p s c under_way sent)
        ((accept_contribution-Keeps (IsQuiet env p s next) (quiet env p s next) env msg).run p
          (refl, refl, refl))
