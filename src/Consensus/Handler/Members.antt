-- ===== src/Consensus/Handler/Members.antt =====
-- pkg/consensus/pbft.go: a node among fixed nodes, under any messages of these nodes, proposals and
-- ceremonies.
use zkrollup_go.Base.{
  ◌≡◌, inl, inr, refl, ap, ◌∙◌, ◌+◌, List, [], ◌∷◌, ◌++◌, some, Option-cases, Bool, true, false,
  not, leb, Bool-cases, String, lookup, insert, ◌==◌, string_eq, nat_eq, if◌then◌else◌, arith,
}
use zkrollup_go.Outcome.{
  Outcome, ok, err, panic, modify, raise_if, wrong_view, not_leader, ◌>>=◌, ◌>>◌,
}
use zkrollup_go.Outcome.Frame.{Leaves, Leaves-weaken, Keeps}
use zkrollup_go.State.{Batch, u64}
use zkrollup_go.Consensus.Types.{
  MessageType, ConsensusMessage, ConsensusState, new_consensus_state, is_pre_prepare,
  leader_rotation, crs_ceremony_start, crs_contribution, crs_ceremony_complete,
}
use zkrollup_go.Consensus.Pbft.{
  Pbft, Environment, is_known, put_state, broadcast, try_broadcast, propose_batch,
}
use zkrollup_go.Consensus.Rounds.{find_or_create, dispatch, handle_round, handle_leader_rotation}
use zkrollup_go.Consensus.Crs.{start_crs_ceremony}
use zkrollup_go.Consensus.Crs.Isolation.{
  IsLike, handle_crs_ceremony_start-Keeps, handle_crs_contribution-Keeps,
  handle_crs_ceremony_complete-Keeps, start_crs_ceremony-Keeps,
}
use zkrollup_go.Consensus.Rounds.Certificates.{
  IsCertificate, IsCertified, certified, unmoved, put-IsCertified, own_vote,
}
use zkrollup_go.Consensus.Rounds.Quorate.{dispatch-IsCertified}
use zkrollup_go.Consensus.Handler.{handle_type, handle}
use zkrollup_go.Consensus.Handler.Votes.{add_known}

module _ (env : Environment) (ids : List String) where
  fresh-IsCertificate : IsCertificate ids [] false
  fresh-IsCertificate = record {
    unique = tt;
    from_nodes = λ id h. absurd (ground arith);
    enough = λ d. absurd (ground (arith, d));
  }

  -- the round that was found or opened, with its certificate
  abbrev FoundCertified : Outcome Pbft ConsensusState → Type 0
  FoundCertified (ok state q) =
      IsCertificate ids state.commit_count state.decided × IsCertified ids q
  FoundCertified (err _ q) = IsCertified ids q
  FoundCertified panic = ⊥

  like-IsCertified : (q q' : Pbft) → IsCertified ids q → IsLike env q q' → IsCertified ids q'
  like-IsCertified q q' h like =
      unmoved env ids q q' (ap (λ p. p.total_nodes) like) (ap (λ p. p.node_ids) like)
        (ap (λ p. p.node_id) like) (ap (λ p. p.states) like) h

  module _ (msg : ConsensusMessage) (known : is_known msg.node_id ids ≡ true) where
    find_or_create-FoundCertified :
        (q : Pbft) → IsCertified ids q → FoundCertified (find_or_create env msg q)
    unfolding find_or_create new_consensus_state
    find_or_create-FoundCertified q h = elim (Option-cases (lookup msg.batch_hash q.states)) [
      | inr (state, found) ↦ rw (found, find_or_create) (h.rounds msg.batch_hash state found, h)
      | inl missing ↦ elim (Bool-cases (is_pre_prepare msg.msg_type)) [
        | inr other ↦ rw (missing, find_or_create, other) h
        | inl opens ↦
            rw (missing, find_or_create, opens)
              (
                fresh-IsCertificate,
                (put-IsCertified env ids msg.batch_hash _ fresh-IsCertificate).run q h,
              )
      ]
    ]

    dispatch_found :
        (r : Outcome Pbft ConsensusState)
        → FoundCertified r
        → Leaves (IsCertified ids) (elim r [
          | ok state q ↦ dispatch env msg.msg_type msg state q
          | err e q ↦ err e q
          | panic ↦ panic
        ])
    dispatch_found (ok state q) h =
        (dispatch-IsCertified env ids msg state h.0 msg.msg_type known).run q h.1
    dispatch_found (err e q) h = h
    dispatch_found panic h = tt

    handle_round-IsCertified : Keeps (IsCertified ids) (handle_round env msg)
    unfolding handle_round
    handle_round-IsCertified = record { run = λ q h. go q h (msg.view == q.view) }
      where
        go :
            (q : Pbft)
            → IsCertified ids q
            → (b : Bool)
            → Leaves (IsCertified ids) (
                (raise_if (not b) wrong_view
                    >> (find_or_create env msg >>= λ state. dispatch env msg.msg_type msg state))
                  q)
        go q h true = dispatch_found (find_or_create env msg q) (find_or_create-FoundCertified q h)
        go q h false = h

    handle_type-IsCertified :
        (kind : MessageType) (q : Pbft)
        → IsCertified ids q
        → Leaves (IsCertified ids) (handle_type env kind msg q)
    unfolding handle_type handle_leader_rotation
    handle_type-IsCertified crs_ceremony_start q h =
        Leaves-weaken _ (λ r. like-IsCertified q r h)
          ((handle_crs_ceremony_start-Keeps env q msg).run q refl)
    handle_type-IsCertified crs_contribution q h =
        Leaves-weaken _ (λ r. like-IsCertified q r h)
          ((handle_crs_contribution-Keeps env q msg).run q refl)
    handle_type-IsCertified crs_ceremony_complete q h =
        Leaves-weaken _ (λ r. like-IsCertified q r h)
          ((handle_crs_ceremony_complete-Keeps env q msg).run q refl)
    handle_type-IsCertified leader_rotation q h = unmoved env ids q _ refl refl refl refl h
    handle_type-IsCertified _ q h = handle_round-IsCertified.run q h

    pub handle-IsCertified :
        (q : Pbft) → IsCertified ids q → Leaves (IsCertified ids) (handle env msg q)
    unfolding handle
    handle-IsCertified q h =
        rw (handle, add_known msg.node_id q (h.nodes msg.node_id ∙ known))
          (handle_type-IsCertified msg.msg_type q h)

  either-IsCertificate :
      (b : Bool) (s t : ConsensusState)
      → IsCertificate ids s.commit_count s.decided
      → IsCertificate ids t.commit_count t.decided
      → let st = (if b then s else t) in IsCertificate ids st.commit_count st.decided
  either-IsCertificate true s t hs ht = hs
  either-IsCertificate false s t hs ht = ht

  put_if_alone :
      (b : Bool) (hash : String) (state : ConsensusState) (batch : Batch) (q : Pbft)
      → IsCertificate ids state.commit_count state.decided
      → IsCertified ids q
      → IsCertified ids (
          if b
          then record (put_state hash state q) {
            decided_batch = q.decided_batch ++ some batch ∷ [];
          }
          else q)
  put_if_alone true hash state batch q certificate h =
      unmoved env ids (put_state hash state q) _ refl refl refl refl
        ((put-IsCertified env ids hash state certificate).run q h)
  put_if_alone false hash state batch q certificate h = h

  counted_up :
      (q : Pbft)
      → IsCertified ids q
      → IsCertified ids (record q { sequence = u64 (q.sequence + 1) })
  counted_up q h = unmoved env ids q _ refl refl refl refl h

  -- the writes of a proposal, whatever the states that are written
  proposal-IsCertified :
      (alone lead : Bool) (hash : String) (s s' s'' : ConsensusState) (m m' : ConsensusMessage)
      (batch : Batch)
      → IsCertificate ids s.commit_count s.decided
      → IsCertificate ids s'.commit_count s'.decided
      → IsCertificate ids s''.commit_count s''.decided
      → Keeps (IsCertified ids) (do
        raise_if (not lead) not_leader
        modify (put_state hash s)
        broadcast env m
        modify (λ q.
            if alone
            then record (put_state hash s' q) { decided_batch = q.decided_batch ++ some batch ∷ [] }
            else q)
        modify (put_state hash s'')
        try_broadcast env m'
        modify (λ q. record q { sequence = u64 (q.sequence + 1) }))
  proposal-IsCertified alone lead hash s s' s'' m m' batch hs hs' hs'' =
      search (certified, put_if_alone, counted_up) depth 20

  pub propose_batch-IsCertified :
      (batch : Batch) → Keeps (IsCertified ids) (propose_batch env batch)
  unfolding propose_batch new_consensus_state
  propose_batch-IsCertified batch = record {
    run = λ p h.
        let own = own_vote env ids p [] false h fresh-IsCertificate in
        let kept =
          either-IsCertificate (leb p.total_nodes 1)
            (record (new_consensus_state env.hash_batch p.view p.sequence (some batch)) {
              commit_count = insert p.node_id true [];
            })
            (new_consensus_state env.hash_batch p.view p.sequence (some batch)) own
            fresh-IsCertificate in
        (proposal-IsCertified (leb p.total_nodes 1) p.is_leader _ _ _ _ _ _ batch
            fresh-IsCertificate kept kept).run
          p h;
  }

  pub start_crs_ceremony-IsCertified :
      (q : Pbft) → IsCertified ids q → Leaves (IsCertified ids) (start_crs_ceremony env q)
  start_crs_ceremony-IsCertified q h =
      Leaves-weaken _ (λ r. like-IsCertified q r h) ((start_crs_ceremony-Keeps env q).run q refl)
