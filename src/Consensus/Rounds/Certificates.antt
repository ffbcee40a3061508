-- ===== src/Consensus/Rounds/Certificates.antt =====
-- pkg/consensus/pbft.go, HandleMessage: the votes behind the decided rounds of a node among fixed
-- nodes.
use zkrollup_go.Base.{
  ◌≡◌, ◌≤◌, inl, inr, refl, ap, ◌∙◌, sym, List, [], ◌∷◌, some, Bool, true, false, Bool-cases,
  String, ◌++◌, Map, lookup, insert, lookup-insert, HasUniqueKeys, insert-HasUniqueKeys, length,
  ◌==◌, string_eq, nat_eq, if◌then◌else◌, arith,
}
use mathlib.Core.Option.{some-injective}
use zkrollup_go.Outcome.{M, Outcome, ok, err, panic, gets, modify, ◌>>=◌, broadcast_failed}
use zkrollup_go.Outcome.Frame.{Leaves, Leaves-weaken, Keeps, keeps}
use zkrollup_go.Consensus.Types.{ConsensusMessage, ConsensusState, quorum}
use zkrollup_go.Consensus.Pbft.{Pbft, Environment, broadcast, try_broadcast, put_state, is_known}
use zkrollup_go.Consensus.Rounds.Voters.{contains-insert}
use zkrollup_go.Consensus.Rounds.Overlap.{AreFrom}

-- The votes are of different nodes among `ids`, and where they decide, there is a quorum of them.
pub record IsCertificate (ids : List String) (votes : Map String Bool) (decided : Bool)
    : Type 0 where
  pub unique : HasUniqueKeys votes
  pub from_nodes : AreFrom ids votes
  pub enough : decided ≡ true → quorum (length ids) ≤ length votes

-- The node knows the nodes `ids`, of whom it is one, and each of its rounds has a certificate.
pub record IsCertified (ids : List String) (q : Pbft) : Type 0 where
  pub total : q.total_nodes ≡ length ids
  pub nodes : (id : String) → is_known id q.node_ids ≡ is_known id ids
  pub itself : is_known q.node_id ids ≡ true
  pub rounds :
      (hash : String) (state : ConsensusState)
      → lookup hash q.states ≡ some state
      → IsCertificate ids state.commit_count state.decided

length-insert :
    (id : String) (votes : Map String Bool) → length votes ≤ length (insert id true votes)
length-insert id [] = omega arith
length-insert id ((voter, vote) ∷ votes) = ground (arith, length-insert id votes)

-- A state that the code reads, with what is known of it.
pub known_gets :
    {S B : Type 0} (P : S → Type 0) (next : S → M S B)
    → ((q : S) → P q → Keeps P (next q))
    → Keeps P (gets (λ p. p) >>= next)
known_gets P next h = record { run = λ q hq. (h q hq).run q hq }

module _ (env : Environment) (ids : List String) where
  -- the rest of a node's state does not matter
  pub unmoved :
      (q q' : Pbft)
      → q'.total_nodes ≡ q.total_nodes
      → q'.node_ids ≡ q.node_ids
      → q'.node_id ≡ q.node_id
      → q'.states ≡ q.states
      → IsCertified ids q
      → IsCertified ids q'
  unmoved q q' total nodes id states h = record {
    total = total ∙ h.total;
    nodes = λ other. ap (is_known other) nodes ∙ h.nodes other;
    itself = ap (λ x. is_known x ids) id ∙ h.itself;
    rounds = λ hash state found. h.rounds hash state (ap (lookup hash) (sym states) ∙ found);
  }

  pub vote-IsCertificate :
      (id : String) (votes : Map String Bool) (decided : Bool)
      → is_known id ids ≡ true
      → IsCertificate ids votes decided
      → IsCertificate ids (insert id true votes) decided
  vote-IsCertificate id votes decided known h = record {
    unique = insert-HasUniqueKeys id true votes h.unique;
    from_nodes = λ other voted. elim (Bool-cases (id == other)) [
      | inl same ↦ rw⁻¹ ((string_eq.eqb_iff id other).0 same) known
      | inr new ↦ h.from_nodes other (ground (arith, contains-insert other id votes, voted, new))
    ];
    enough = λ d. omega (arith, h.enough d, length-insert id votes);
  }

  pub own_vote :
      (q : Pbft) (votes : Map String Bool) (decided : Bool)
      → IsCertified ids q
      → IsCertificate ids votes decided
      → IsCertificate ids (insert q.node_id true votes) decided
  own_vote q votes decided h = vote-IsCertificate q.node_id votes decided h.itself

  pub broadcast-IsCertified : (msg : ConsensusMessage) → Keeps (IsCertified ids) (broadcast env msg)
  unfolding broadcast
  broadcast-IsCertified msg = record {
    run = λ q h.
        let p' : Pbft = record q {
          broadcasts = q.broadcasts ++ (msg, env.network q.broadcasts msg) ∷ [];
        } in
        go p' (unmoved q p' refl refl refl refl h) (env.network q.broadcasts msg);
  }
    where
      go :
          (p' : Pbft)
          → IsCertified ids p'
          → (sent : Bool)
          → Leaves (IsCertified ids) (if sent then ok tt p' else err broadcast_failed p')
      go p' h true = h
      go p' h false = h

  pub try_broadcast-IsCertified :
      (out : ConsensusMessage) → Keeps (IsCertified ids) (try_broadcast env out)
  unfolding try_broadcast
  try_broadcast-IsCertified out = record {
    run = λ q h. go (broadcast env out q) ((broadcast-IsCertified out).run q h);
  }
    where
      go :
          (r : Outcome Pbft (Unit {0}))
          → Leaves (IsCertified ids) r
          → Leaves
              (IsCertified ids)
              (elim r [ ok _ p' ↦ ok tt p' | err _ p' ↦ ok tt p' | panic ↦ panic ])
      go (ok _ p') h = h
      go (err _ p') h = h
      go panic h = tt

  pub put-IsCertified :
      (hash : String) (state : ConsensusState)
      → IsCertificate ids state.commit_count state.decided
      → Keeps (IsCertified ids) (modify (put_state hash state))
  unfolding put_state
  put-IsCertified hash state certificate = record {
    run = λ q h. record {
      total = h.total;
      nodes = h.nodes;
      itself = h.itself;
      rounds = λ at s found. elim (Bool-cases (hash == at)) [
        | inl here ↦
            let same : state ≡ s =
              some-injective _ _
                (ground (arith, lookup-insert hash at state q.states, found, here)) in
            rw⁻¹ (same) certificate
        | inr other ↦
            h.rounds at s (ground (arith, lookup-insert hash at state q.states, found, other))
      ];
    };
  }

  pub ruleset certified = (
    keeps, known_gets, broadcast-IsCertified, try_broadcast-IsCertified, put-IsCertified, own_vote,
  )
