-- ===== src/Onchain/Orchestrator.antt =====
-- pkg/sequencer/crs_orchestrator.go and crsutils/crs_utils.go: a node's part in the ceremony of the
-- contract. The curve BN254 and the random bytes are parameters.
use zkrollup_go.Base.{
  ℕ, zero, suc, ◌/◌, ◌%◌, List, [], ◌∷◌, ◌++◌, Option, none, some, Bool, not, ◌||◌, nat_eqb,
  if◌then◌else◌, length, take, drop,
}
use zkrollup_go.Base.Int.{ℤ, pos, negsuc}
use zkrollup_go.Base.Bytes.{of_bytes}
use zkrollup_go.Outcome.{
  M, Outcome, ok, err, panic, pure, raise_if, or_raise, ◌>>=◌, ◌>>◌, bad_crs, no_entropy, bad_point,
}
use zkrollup_go.State.{Address}
use zkrollup_go.Onchain.{
  CrsManager, transact, check_contributor, get_current_crs, contribute_crs, is_last_contributor,
  finalize_crs,
}

-- `bn254.SizeOfG1AffineCompressed`
abbrev pub point_size : ℕ
point_size = 32

-- The scalar that a number stands for, the product of a compressed point by a scalar, which fails
-- where the bytes are no point, and the product of the zero point.
pub record Curve : Type 0 where
  pub reduce : ℕ → ℕ
  pub scale : ℕ → List ℕ → Option (List ℕ)
  pub scale_zero : ℕ → List ℕ

-- Which calls of a step are answered, the random bytes, and the time of the next block.
pub record Luck : Type 0 where
  pub answers_idx : Bool
  pub answers_participants : Bool
  pub answers_crs : Bool
  pub entropy : Option (List ℕ)
  pub sends_contribution : Bool
  pub answers_last : Bool
  pub sends_finalization : Bool
  pub now : ℕ

-- once the contribution is sent
unfoldable pub finish : Luck → Address → M CrsManager (Unit {0})
unfolding is_last_contributor transact finalize_crs
finish luck from = do
  last ← is_last_contributor luck.answers_last from
  (if last then transact luck.sends_finalization (finalize_crs luck.now) else pure tt)

module _ (curve : Curve) where
  -- the loop over the points
  unfoldable pub scale_points : ℕ → ℕ → List ℕ → Option (List ℕ)
  scale_points zero scalar crs = some []
  scale_points (suc n) scalar crs = elim (curve.scale scalar (take point_size crs)) [
    | none ↦ none
    | some point ↦ elim (scale_points n scalar (drop point_size crs)) [
      | none ↦ none
      | some points ↦ some (point ++ points)
    ]
  ]

  -- `TransformCRSWithRandomScalar`, with the random bytes where there are any; the scalar that it
  -- returns is the number before it is reduced.
  unfoldable pub transform_crs : {S : Type 0} → Option (List ℕ) → List ℕ → M S (List ℕ × ℕ)
  unfolding scale_points of_bytes
  transform_crs entropy current_crs = do
    raise_if
        (not (nat_eqb (length current_crs % point_size) 0)
          || nat_eqb (length current_crs / point_size) 0)
        bad_crs
    bytes ← or_raise no_entropy entropy
    my_crs ← or_raise bad_point (
        scale_points (length current_crs / point_size) (curve.reduce (of_bytes 0 bytes))
          current_crs)
    pure (my_crs, of_bytes 0 bytes)

  -- the loop of `GenerateRandomCRS`, over the random bytes of the points
  unfoldable pub random_points : ℕ → (ℕ → Option (List ℕ)) → Option (List ℕ)
  unfolding of_bytes
  random_points zero entropy = some []
  random_points (suc n) entropy = elim (random_points n entropy) [
    | none ↦ none
    | some points ↦ elim (entropy n) [
      | none ↦ none
      | some bytes ↦ some (points ++ curve.scale_zero (curve.reduce (of_bytes 0 bytes)))
    ]
  ]

  -- `GenerateRandomCRS`
  unfoldable pub generate_random_crs : {S : Type 0} → ℤ → (ℕ → Option (List ℕ)) → M S (List ℕ)
  unfolding random_points
  generate_random_crs (negsuc n) entropy = (λ s. err bad_crs s)
  generate_random_crs (pos zero) entropy = (λ s. err bad_crs s)
  generate_random_crs (pos (suc n)) entropy = or_raise no_entropy (random_points (suc n) entropy)

  unfoldable pub contribute : Luck → Address → M CrsManager (Unit {0})
  unfolding finish get_current_crs transform_crs transact contribute_crs
  contribute luck from = do
    current_crs ← get_current_crs luck.answers_crs
    transformed ← transform_crs luck.entropy current_crs
    transact luck.sends_contribution (contribute_crs from transformed.0)
    finish luck from

  -- `step`
  unfoldable pub orchestrate : Luck → Address → M CrsManager (Unit {0})
  unfolding contribute check_contributor
  orchestrate luck from = do
    is_turn ← check_contributor luck.answers_idx luck.answers_participants from
    (if is_turn then contribute luck from else pure tt)

-- An error is logged, and the loop goes on. (Nothing in a step panics.)
abbrev pub logged : CrsManager → Outcome CrsManager (Unit {0}) → CrsManager
logged before (ok _ m) = m
logged before (err _ m) = m
logged before panic = before

module _ (curve : Curve) where
  unfoldable pub step : Luck → Address → CrsManager → CrsManager
  unfolding orchestrate
  step luck from m = logged m (orchestrate curve luck from m)

  -- The turns of the orchestrators of several nodes, in the order in which they come.
  unfoldable pub run_steps : List (Address × Luck) → CrsManager → CrsManager
  unfolding step
  run_steps [] m = m
  run_steps ((from, luck) ∷ rest) m = run_steps rest (step luck from m)
