-- ===== src/Consensus/Rounds/Decisions.antt =====
-- The batches that a node hands to its sequencer, and the rounds that it has decided.
use zkrollup_go.Base.{
  ◌≡◌, refl, ap, ◌∙◌, ℕ, ◌+◌, [], ◌∷◌, none, some, Bool, true, false, inl, inr, arith, Map, lookup,
  insert, lookup-insert, eqb_refl, String, string_eq, ◌==◌, if◌then◌else◌, length, length-append,
  Bool-cases, Option-cases, not, nat_eq,
}
use zkrollup_go.Outcome.{Outcome, ok, err, panic, modify, raise_if, wrong_view, ◌>>=◌, ◌>>◌}
use zkrollup_go.Consensus.Types.{
  ConsensusMessage, ConsensusState, MessageType, pre_prepare, prepare, commit, new_consensus_state,
  is_pre_prepare,
}
use zkrollup_go.Consensus.Pbft.{Pbft, Environment, broadcast, put_state, is_known}
use zkrollup_go.Outcome.Frame.{Leaves, Keeps, keeps, Leaves-weaken}
use zkrollup_go.Consensus.Rounds.Commits.{Counted, voted, on_commit-Counted}
use zkrollup_go.Consensus.Rounds.{
  on_pre_prepare, maybe_commit, on_prepare, on_commit, find_or_create, dispatch, handle_round,
}

abbrev one_if : Bool → ℕ
one_if b = if b then 1 else 0

-- How many rounds are decided.
unfoldable pub num_decided : Map String ConsensusState → ℕ
num_decided [] = 0
num_decided ((hash, state) ∷ rest) = one_if state.decided + num_decided rest

-- Whether the round of this hash is decided.
abbrev pub round_decided : String → Map String ConsensusState → Bool
round_decided hash states = elim (lookup hash states) [ none ↦ false | some s ↦ s.decided ]

num_decided-insert :
    (hash : String) (state : ConsensusState) (m : Map String ConsensusState)
    → num_decided (insert hash state m) + one_if (round_decided hash m)
      ≡ num_decided m + one_if state.decided
unfolding num_decided
num_decided-insert hash state [] = omega arith
num_decided-insert hash state ((h, s) ∷ rest) = ground (arith, num_decided-insert hash state rest)

round_decided-insert :
    (hash : String) (state : ConsensusState) (m : Map String ConsensusState)
    → round_decided hash (insert hash state m) ≡ state.decided
round_decided-insert hash state m = ground (arith, lookup-insert hash hash state m, eqb_refl hash)

-- As many batches are handed over as rounds are decided, but for `k`; and the node knows itself.
abbrev pub IsAccounted : ℕ → Pbft → Type 0
IsAccounted k q =
    (length q.decided_batch + k ≡ num_decided q.states) × (is_known q.node_id q.node_ids ≡ true)

-- That, and the round of the hash is decided or not, as `d` says.
abbrev IsAt : ℕ → String → Bool → Pbft → Type 0
IsAt k hash d q = IsAccounted k q × (round_decided hash q.states ≡ d)

module _ (env : Environment) (k : ℕ) (hash : String) (d : Bool) where
  broadcast-IsAt : (msg : ConsensusMessage) → Keeps (IsAt k hash d) (broadcast env msg)
  unfolding broadcast
  broadcast-IsAt msg = record { run = λ q h. ground arith }

  put-IsAt :
      (state : ConsensusState)
      → state.decided ≡ d
      → Keeps (IsAt k hash d) (modify (put_state hash state))
  unfolding put_state
  put-IsAt state same = record {
    run = λ q h. (
      (omega (arith, num_decided-insert hash state q.states, ap one_if same, ap one_if h.1), h.0.1),
      round_decided-insert hash state q.states ∙ same,
    );
  }

  ruleset here = (keeps, broadcast-IsAt, put-IsAt)

module _ (env : Environment) (k : ℕ) (msg : ConsensusMessage) (state : ConsensusState) where
  abbrev At : Pbft → Type 0
  At = IsAt k msg.batch_hash state.decided

  on_pre_prepare-IsAt : Keeps At (on_pre_prepare env msg state)
  unfolding on_pre_prepare
  on_pre_prepare-IsAt = search here depth 14

  maybe_commit-IsAt :
      (voted : ConsensusState)
      → voted.decided ≡ state.decided
      → Keeps At (maybe_commit env msg voted)
  unfolding maybe_commit
  maybe_commit-IsAt voted same = search here depth 14

  on_prepare-IsAt : Keeps At (on_prepare env msg state)
  unfolding on_prepare
  on_prepare-IsAt = search (here, maybe_commit-IsAt) depth 14

  Counted-IsAccounted : (q q' : Pbft) → At q → Counted q msg state q' → IsAccounted k q'
  unfolding put_state
  Counted-IsAccounted q q' h (inl (fires, batches, states, nodes, same)) =
      let was : state.decided ≡ false = ground arith in
      rw (batches, states, nodes, same)
        (
          omega (
            arith,
            length-append q.decided_batch (state.batch ∷ []),
            h.0.0,
            ap one_if h.1,
            ap one_if was,
            num_decided-insert msg.batch_hash (record (voted msg state) { decided = true })
                q.states,
          ),
          h.0.1,
        )
  Counted-IsAccounted q q' h (inr (waits, same)) = rw (same) (
    omega (arith, num_decided-insert msg.batch_hash (voted msg state) q.states, ap one_if h.1),
    h.0.1,
  )

  on_commit-IsAccounted : (q : Pbft) → At q → Leaves (IsAccounted k) (on_commit env msg state q)
  on_commit-IsAccounted q h =
      let (q', e, counted) = on_commit-Counted env msg state q h.0.1 in
      rw (e) (Counted-IsAccounted q q' h counted)

  dispatch-IsAccounted :
      (kind : MessageType) (q : Pbft)
      → At q
      → Leaves (IsAccounted k) (dispatch env kind msg state q)
  unfolding dispatch
  dispatch-IsAccounted pre_prepare q h =
      Leaves-weaken (on_pre_prepare env msg state q) (λ _ h. h.0) (on_pre_prepare-IsAt.run q h)
  dispatch-IsAccounted prepare q h =
      Leaves-weaken (on_prepare env msg state q) (λ _ h. h.0) (on_prepare-IsAt.run q h)
  dispatch-IsAccounted commit q h = on_commit-IsAccounted q h
  dispatch-IsAccounted _ q h = h.0

module _ (env : Environment) (k : ℕ) (msg : ConsensusMessage) where
  round_known :
      (state : ConsensusState) (q : Pbft)
      → lookup msg.batch_hash q.states ≡ some state
      → round_decided msg.batch_hash q.states ≡ state.decided
  round_known state q e = ground arith

  -- the state of the round that was found or opened, at its place in the map
  abbrev FoundAt : Outcome Pbft ConsensusState → Type 0
  FoundAt (ok state q) = IsAt k msg.batch_hash state.decided q
  FoundAt (err _ q) = IsAccounted k q
  FoundAt panic = ⊥

  find_or_create-FoundAt : (q : Pbft) → IsAccounted k q → FoundAt (find_or_create env msg q)
  unfolding find_or_create new_consensus_state
  find_or_create-FoundAt q h = elim (Option-cases (lookup msg.batch_hash q.states)) [
    | inr (state, found) ↦ rw (found, find_or_create) (h, round_known state q found)
    | inl missing ↦ elim (Bool-cases (is_pre_prepare msg.msg_type)) [
      | inr other ↦ rw (missing, find_or_create, other) h
      | inl opens ↦
          let fresh : round_decided msg.batch_hash q.states ≡ false =
            rw (missing, round_decided) refl in
          rw (missing, find_or_create, opens)
            ((put-IsAt env k msg.batch_hash false _ refl).run q (h, fresh))
    ]
  ]

  dispatch_found :
      (r : Outcome Pbft ConsensusState)
      → FoundAt r
      → Leaves (IsAccounted k) (elim r [
        | ok state q ↦ dispatch env msg.msg_type msg state q
        | err e q ↦ err e q
        | panic ↦ panic
      ])
  dispatch_found (ok state q) h = dispatch-IsAccounted env k msg state msg.msg_type q h
  dispatch_found (err e q) h = h
  dispatch_found panic h = tt

  -- Every message of the agreement, whoever sent it, keeps the account of decided rounds.
  pub handle_round-Keeps : Keeps (IsAccounted k) (handle_round env msg)
  unfolding handle_round
  handle_round-Keeps = record { run = λ q h. go q h (msg.view == q.view) }
    where
      go :
          (q : Pbft)
          → IsAccounted k q
          → (b : Bool)
          → Leaves (IsAccounted k) (
              (raise_if (not b) wrong_view
                  >> (find_or_create env msg >>= λ state. dispatch env msg.msg_type msg state))
                q)
      go q h true = dispatch_found (find_or_create env msg q) (find_or_create-FoundAt q h)
      go q h false = h
