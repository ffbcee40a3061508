-- ===== src/Onchain/Steps.antt =====
-- pkg/sequencer/crs_orchestrator.go: what one turn of a node does to the contract.
use zkrollup_go.Base.{
  ◌≡◌, ◌≢◌, ap, ◌∙◌, inl, inr, ℕ, zero, suc, ◌+◌, ◌<◌, ◌/◌, ◌%◌, List, [], ◌∷◌, Option, none, some,
  true, false, nat_eq, length, get_elem?, lookup, Option-cases, arith,
}
use zkrollup_go.Base.Bytes.{of_bytes}
use zkrollup_go.Outcome.{ok, bind_ok}
use zkrollup_go.State.{Address}
use zkrollup_go.Onchain.{
  CrsManager, transact, query, check_contributor, get_current_crs, contribute_crs,
  is_last_contributor, finalize_crs, participants_of, is_at, is_last, is_open, anchored,
}
use zkrollup_go.Onchain.Orchestrator.{
  Curve, Luck, point_size, scale_points, transform_crs, finish, contribute, orchestrate, logged,
  step,
}

-- Every call of the turn is answered.
abbrev pub IsLucky : Luck → Type 0
IsLucky luck =
    (luck.answers_idx ≡ true)
    × (luck.answers_participants ≡ true)
    × (luck.answers_crs ≡ true)
    × (luck.entropy ≢ none)
    × (luck.sends_contribution ≡ true)
    × (luck.answers_last ≡ true)
    × (luck.sends_finalization ≡ true)

abbrev pub contributed : List ℕ → CrsManager → CrsManager
contributed new_crs m = record m {
  current_crs = new_crs;
  current_contributor_idx = m.current_contributor_idx + 1;
}

-- The scalar of the random bytes.
abbrev pub scalar_of : Curve → Option (List ℕ) → ℕ
scalar_of curve none = 0
scalar_of curve (some bytes) = curve.reduce (of_bytes 0 bytes)

module _ (curve : Curve) where
  -- A turn of a node, in a ceremony whose CRS is still empty, changes nothing.
  pub step_empty :
      (luck : Luck) (from : Address) (m : CrsManager)
      → m.current_crs ≡ []
      → step curve luck from m ≡ m
  unfolding step orchestrate check_contributor query contribute get_current_crs transform_crs
  step_empty luck from m e = ground arith

  -- A contribution is due: the node's turn has come in an active ceremony, and the points of the CRS
  -- can be multiplied.
  pub record IsDue (luck : Luck) (from : Address) (m : CrsManager) (new_crs : List ℕ) : Type 0 where
    pub turn : get_elem? (participants_of m) m.current_contributor_idx ≡ some from
    pub active : m.ceremony_active ≡ true
    pub whole : length m.current_crs % point_size ≡ 0
    pub nonempty : 0 < length m.current_crs / point_size
    pub scaled :
        scale_points curve
          (length m.current_crs / point_size)
          (scalar_of curve luck.entropy)
          m.current_crs
        ≡ some new_crs

  get_elem-lt : {A : Type 0} (xs : List A) (i : ℕ) (x : A) → get_elem? xs i ≡ some x → i < length xs
  get_elem-lt [] i x e = cc
  get_elem-lt (y ∷ ys) zero x e = omega arith
  get_elem-lt (y ∷ ys) (suc i) x e = omega (arith, get_elem-lt ys i x e)

  check_lem :
      (luck : Luck) (from : Address) (m : CrsManager) (new_crs : List ℕ)
      → IsLucky luck
      → IsDue luck from m new_crs
      → check_contributor luck.answers_idx luck.answers_participants from m ≡ ok true m
  unfolding check_contributor query is_at
  check_lem luck from m new_crs l d =
      let below = get_elem-lt (participants_of m) m.current_contributor_idx from d.turn in
      ground (arith, d.turn)

  transform_lem :
      (luck : Luck) (from : Address) (m : CrsManager) (new_crs : List ℕ)
      → IsLucky luck
      → IsDue luck from m new_crs
      → (scalar : ℕ) × (transform_crs curve luck.entropy m.current_crs m ≡ ok (new_crs, scalar) m)
  unfolding transform_crs
  transform_lem luck from m new_crs l d = elim (Option-cases luck.entropy) [
    | inl nil ↦ absurd (l.3 nil)
    | inr (bytes, e) ↦
        let scaled : scale_points curve (length m.current_crs / point_size)
              (curve.reduce (of_bytes 0 bytes)) m.current_crs
            ≡ some new_crs =
          rw (e) at d.scaled in
        (of_bytes 0 bytes, ground (arith, d.whole, d.nonempty))
  ]

  contribute_lem :
      (luck : Luck) (from : Address) (m : CrsManager) (new_crs : List ℕ)
      → IsDue luck from m new_crs
      → contribute_crs from new_crs m ≡ some (contributed new_crs m)
  unfolding contribute_crs is_at
  contribute_lem luck from m new_crs d =
      let below = get_elem-lt (participants_of m) m.current_contributor_idx from d.turn in
      ground (arith, d.turn, d.active)

  contribute_step :
      (luck : Luck) (from : Address) (m : CrsManager) (new_crs : List ℕ)
      → IsLucky luck
      → IsDue luck from m new_crs
      → contribute curve luck from m ≡ finish luck from (contributed new_crs m)
  unfolding contribute get_current_crs query transact
  contribute_step luck from m new_crs l d =
      let (scalar, e) = transform_lem luck from m new_crs l d in
      let got : get_current_crs luck.answers_crs m ≡ ok m.current_crs m =
        rw (l.2, get_current_crs, query) in
      let sent : transact luck.sends_contribution (contribute_crs from new_crs) m
          ≡ ok tt (contributed new_crs m) =
        rw (l.4, transact, contribute_lem luck from m new_crs d) in
      bind_ok m (get_current_crs luck.answers_crs) _ m.current_crs m got
      ∙ bind_ok m (transform_crs curve luck.entropy m.current_crs) _ (new_crs, scalar) m e
      ∙ bind_ok m (transact luck.sends_contribution (contribute_crs from new_crs)) _ tt
          (contributed new_crs m) sent

  -- A lucky turn with a contribution that is due ends as its last part does, after the contribution.
  pub step_due :
      (luck : Luck) (from : Address) (m : CrsManager) (new_crs : List ℕ)
      → IsLucky luck
      → IsDue luck from m new_crs
      → step curve luck from m ≡ logged m (finish luck from (contributed new_crs m))
  unfolding step orchestrate
  step_due luck from m new_crs l d = ap (logged m) (
      bind_ok m (check_contributor luck.answers_idx luck.answers_participants from) _ true m
        (check_lem luck from m new_crs l d)
      ∙ contribute_step luck from m new_crs l d)

pub finish_later :
    (luck : Luck) (from : Address) (before m : CrsManager)
    → IsLucky luck
    → is_last from (participants_of m) ≡ false
    → logged before (finish luck from m) ≡ m
unfolding finish is_last_contributor query
finish_later luck from before m l other = rw (finish, l.5, other)

ready_lem :
    (luck : Luck) (m : CrsManager)
    → m.ceremony_active ≡ true
    → m.current_contributor_idx ≡ length (participants_of m)
    → 0 < length (participants_of m)
    → is_open (lookup m.current_round m.crs_history) ≡ true
    → finalize_crs luck.now m ≡ some (anchored luck.now m)
unfolding finalize_crs
ready_lem luck m active all some_one fresh = ground arith

pub finish_last :
    (luck : Luck) (from : Address) (before m : CrsManager)
    → IsLucky luck
    → is_last from (participants_of m) ≡ true
    → m.ceremony_active ≡ true
    → m.current_contributor_idx ≡ length (participants_of m)
    → 0 < length (participants_of m)
    → is_open (lookup m.current_round m.crs_history) ≡ true
    → logged before (finish luck from m) ≡ anchored luck.now m
unfolding finish is_last_contributor query transact finalize_crs
finish_last luck from before m l last active all some_one fresh =
    let ready : finalize_crs luck.now m ≡ some (anchored luck.now m) =
      ready_lem luck m active all some_one fresh in
    rw (finish, l.5, last, l.6, transact, ready)
