-- ===== src/Program.antt =====
-- main.go: the whole node, from the environment variables to the sequencer that serves its peers and
-- its clients.
use zkrollup_go.Base.{
  ◌≡◌, ◌⊎◌, inl, inr, List, ℕ, some, String, Bool, true, false, string_eq, ◌==◌, arith, Bool-cases,
  ap, ◌∙◌,
}
use zkrollup_go.Outcome.{M, Outcome, ok, err, panic, pure, ◌>>=◌, prover_failed}
use zkrollup_go.Outcome.Frame.{Leaves}
use zkrollup_go.Network.Streams.{Codec, Ending, receive_stream}
use zkrollup_go.Settings.{launch, default_config, read_l1}
use zkrollup_go.Sequencer.{Sequencer, new_sequencer}
use zkrollup_go.Sequencer.Invariant.{IsSound}
use zkrollup_go.Sequencer.Machine.{Running-IsSound, boot}
use zkrollup_go.Sequencer.Wiring.{receive_stream-IsSound}
use zkrollup_go.Sequencer.Startup.{
  Surroundings, Started, submits, create_sequencer, start, Creates, create_sequencer-Creates,
}

-- main up to the waiting for a signal; an error ends the process.
unfoldable pub run : Surroundings → (String → String) → M Bool Started
unfolding launch create_sequencer start
run outer getenv = do
  let setup = launch getenv
  st ← create_sequencer outer setup.config setup.port setup.bootstrap setup.is_leader
  pure (start outer st)

IsSound-same : (q q' : Sequencer) → q ≡ q' → IsSound q' → IsSound q
IsSound-same q q' e h = rw (e) h

module _ (outer : Surroundings) (getenv : String → String) (json : Codec) where
  -- A sequencer that is sound, and that no stream of a peer makes otherwise.
  abbrev Serves : Started → Type 0
  Serves st =
      IsSound st.sequencer
      × ((protocol : String) (bytes : List ℕ) (run : M Sequencer Ending)
          → receive_stream json st.node protocol bytes ≡ some run
          → (q : Sequencer) → IsSound q
          → Leaves IsSound (run q))

  abbrev pub Runs : Outcome Bool Started → Type 0
  Runs (ok st held) =
      (held ≡ true)
      × Serves st
      × (submits st ≡ true → getenv "L1_ENABLED" ≡ "true")
      × (st.sequencer.is_leader ≡ (getenv "IS_LEADER" == "true"))
  Runs (err e held) = (e ≡ prover_failed) × (held ≡ true) ⊎ (held ≡ false)
  Runs panic = ⊥

  l1_asked : (launch getenv).config.l1_enabled ≡ true → getenv "L1_ENABLED" ≡ "true"
  unfolding launch default_config read_l1
  l1_asked on = elim (Bool-cases (getenv "L1_ENABLED" == "true")) [
    | inl asked ↦ (string_eq.eqb_iff (getenv "L1_ENABLED") "true").0 asked
    | inr other ↦ absurd (ground (arith, other, on))
  ]

  started-Runs :
      (r : Outcome Bool Started)
      → Creates outer (launch getenv).config (launch getenv).is_leader r
      → Runs (elim r [
        | ok st held ↦ ok (start outer st) held
        | err e held ↦ err e held
        | panic ↦ panic
      ])
  unfolding start new_sequencer launch
  started-Runs (ok st held) (open_host, ((batch_size, same), handlers, client, asked)) = (
    open_host,
    (
      IsSound-same st.sequencer _ same (
          Running-IsSound outer.env (λ caller nonce. caller) _
            (boot batch_size (submits st) st.node.id (launch getenv).is_leader)),
      λ protocol bytes run e. receive_stream-IsSound outer.env json st.node protocol bytes run e,
    ),
    λ on. l1_asked (asked (ap (λ q. q.l1_enabled) same ∙ on)),
    ap (λ q. q.is_leader) same,
  )
  started-Runs (err e held) (inl h) = inl (h.0, h.2)
  started-Runs (err e held) (inr h) = inr h
  started-Runs panic h = h

  -- Whatever the environment variables and the surroundings are, main ends with an error, or runs a
  -- sequencer that is sound and stays sound under all streams of peers; it submits batches to the
  -- L1 only where L1_ENABLED is "true", and leads exactly where IS_LEADER is "true". Only a prover
  -- that cannot be made leaves the host open behind an error.
  pub run-Runs : Runs (run outer getenv false)
  unfolding run
  run-Runs =
      let setup = launch getenv in
      started-Runs
        (create_sequencer outer setup.config setup.port setup.bootstrap setup.is_leader false)
        (create_sequencer-Creates outer setup.is_leader setup.config setup.port setup.bootstrap)
