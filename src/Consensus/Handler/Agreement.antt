-- ===== src/Consensus/Handler/Agreement.antt =====
-- pkg/consensus/pbft.go: what two nodes of one network have in common when each of them has decided.
use zkrollup_go.Base.{
  ◌≡◌, ◌≢◌, ◌≤◌, ◌<◌, inl, inr, refl, ◌%◌, List, [], ◌∷◌, none, some, All, true, false, String,
  lookup, contains, length, string_eq, arith,
}
use mathlib.Core.Option.{some-injective}
use zkrollup_go.Outcome.{Outcome, ok, err, panic}
use zkrollup_go.Outcome.Frame.{Ends, Leaves-end}
use zkrollup_go.State.{Batch}
use zkrollup_go.Consensus.Types.{ConsensusMessage, ConsensusState}
use zkrollup_go.Consensus.Types.Quorum.{faults, quorum_bounds}
use zkrollup_go.Consensus.Pbft.{Pbft, Environment, is_known, propose_batch}
use zkrollup_go.Consensus.Crs.{start_crs_ceremony}
use zkrollup_go.Consensus.Rounds.Voters.{AreDistinct}
use zkrollup_go.Consensus.Rounds.Overlap.{common_or_few, count_known, votes_counted}
use zkrollup_go.Consensus.Rounds.Certificates.{IsCertified}
use zkrollup_go.Consensus.Handler.{handle}
use zkrollup_go.Consensus.Handler.Delivery.{deliver_all}
use zkrollup_go.Consensus.Handler.Members.{
  handle-IsCertified, propose_batch-IsCertified, start_crs_ceremony-IsCertified,
}

-- A node that knows exactly the nodes `ids`, of whom it is one, before its first round.
pub record IsMember (ids : List String) (p : Pbft) : Type 0 where
  pub total : p.total_nodes ≡ length ids
  pub nodes : (id : String) → is_known id p.node_ids ≡ is_known id ids
  pub itself : is_known p.node_id ids ≡ true
  pub unused : p.states ≡ []

-- The states of such a node under any messages in the names of these nodes, in any order, and any
-- proposals and ceremonies of its own.
pub data Serving (env : Environment) (ids : List String) : Pbft → Type 0 where
  join : {p : Pbft} → IsMember ids p → Serving env ids p
  receive :
      {p q : Pbft} (msg : ConsensusMessage)
      → Serving env ids p
      → is_known msg.node_id ids ≡ true
      → Ends (handle env msg p) q
      → Serving env ids q
  propose :
      {p q : Pbft} (batch : Batch)
      → Serving env ids p
      → Ends (propose_batch env batch p) q
      → Serving env ids q
  begin_ceremony :
      {p q : Pbft} → Serving env ids p → Ends (start_crs_ceremony env p) q → Serving env ids q

step-Serving :
    {env : Environment} {ids : List String} (msgs : List ConsensusMessage)
    (r : Outcome Pbft (Unit {0})) (q : Pbft)
    → ((p' : Pbft) → Ends r p' → deliver_all env msgs p' ≡ some q → Serving env ids q)
    → (elim r [
      | ok _ p' ↦ deliver_all env msgs p'
      | err _ p' ↦ deliver_all env msgs p'
      | panic ↦ none
    ])
      ≡ some q
    → Serving env ids q
step-Serving msgs (ok _ p') q f e = f p' (refl, λ x. cc) e
step-Serving msgs (err _ p') q f e = f p' (refl, λ x. cc) e
step-Serving msgs panic q f e = absurd (ground (arith, e))

-- A node that gets messages one after another, and does not end in a panic.
pub deliver_all-Serving :
    (env : Environment) (ids : List String) (msgs : List ConsensusMessage) (p q : Pbft)
    → Serving env ids p
    → All (λ msg. is_known msg.node_id ids ≡ true) msgs
    → deliver_all env msgs p ≡ some q
    → Serving env ids q
unfolding deliver_all
deliver_all-Serving env ids [] p q run known e = rw⁻¹ (some-injective _ _ e) run
deliver_all-Serving env ids (msg ∷ msgs) p q run known e =
    step-Serving msgs (handle env msg p) q
      (λ p' ends. deliver_all-Serving env ids msgs p' q (receive msg run known.0 ends) known.1) e

-- The node has decided the round of the hash, whose state is `state`.
abbrev pub HasDecided : Pbft → String → ConsensusState → Type 0
HasDecided p hash state = (lookup hash p.states ≡ some state) × (state.decided ≡ true)

module _ (ids : List String) where
  join-IsCertified : (p : Pbft) → IsMember ids p → IsCertified ids p
  join-IsCertified p h = record {
    total = h.total;
    nodes = h.nodes;
    itself = h.itself;
    rounds = λ hash state found. absurd (ground (arith, found, h.unused));
  }

  Serving-IsCertified : (env : Environment) (p : Pbft) → Serving env ids p → IsCertified ids p
  Serving-IsCertified env p (join h) = join-IsCertified p h
  Serving-IsCertified env q (receive {p} msg run known e) =
      Leaves-end (IsCertified ids) (handle env msg p) q
        (handle-IsCertified env ids msg known p (Serving-IsCertified env p run)) e
  Serving-IsCertified env q (propose {p} batch run e) =
      Leaves-end (IsCertified ids) (propose_batch env batch p) q
        ((propose_batch-IsCertified env ids batch).run p (Serving-IsCertified env p run)) e
  Serving-IsCertified env q (begin_ceremony {p} run e) =
      Leaves-end (IsCertified ids) (start_crs_ceremony env p) q
        (start_crs_ceremony-IsCertified env ids p (Serving-IsCertified env p run)) e

  -- Any two rounds that nodes of one network have decided, at one node or at two, were both voted
  -- for in the name of a node that is not faulty. The nodes are distinct, at most (n - 1) / 3 of them
  -- are faulty, n is not of the form 3 m + 2, and each of the two nodes knows all of them from the
  -- start and gets any messages in their names, in any order.
  pub decided_rounds_share :
      (env env' : Environment) (p q : Pbft) (hash hash' : String) (s t : ConsensusState)
      (faulty : List String)
      → AreDistinct ids
      → 0 < length ids
      → length ids % 3 ≢ 2
      → length faulty ≤ faults (length ids)
      → Serving env ids p
      → Serving env' ids q
      → HasDecided p hash s
      → HasDecided q hash' t
      → (id : String) × (contains id s.commit_count ≡ true)
        × (contains id t.commit_count ≡ true)
        × (is_known id faulty ≡ false)
  decided_rounds_share env env' p q hash hash' s t faulty distinct some_nodes shape few run run' d
        d' =
      let c = (Serving-IsCertified env p run).rounds hash s d.0 in
      let c' = (Serving-IsCertified env' q run').rounds hash' t d'.0 in
      elim (common_or_few (λ id. contains id s.commit_count) (λ id. contains id t.commit_count)
        (λ id. is_known id faulty) ids) [
          | inl found ↦ found
          | inr overlap ↦ absurd (
              ground (
                arith,
                overlap,
                shape,
                few,
                votes_counted ids s.commit_count c.unique c.from_nodes,
                votes_counted ids t.commit_count c'.unique c'.from_nodes,
                count_known ids faulty distinct,
                c.enough d.1,
                c'.enough d'.1,
                quorum_bounds (length ids) some_nodes,
              ))
        ]
