-- ===== src/Onchain/Points.antt =====
-- pkg/sequencer/crs_orchestrator.go with contracts/CRSManager.sol: the points of a CRS.
use zkrollup_go.Base.{
  ◌≡◌, refl, ap, ◌∙◌, ℕ, zero, suc, ◌*◌, ◌/◌, ◌<◌, List, [], ◌∷◌, ◌++◌, some, true, nat_eq, length,
  length-append, get_elem?, take, drop, All, arith,
}
use zkrollup_go.State.{Address}
use zkrollup_go.Onchain.{CrsManager, participants_of}
use zkrollup_go.Onchain.Orchestrator.{Curve, Luck, point_size, scale_points}
use zkrollup_go.Onchain.Steps.{IsDue, scalar_of}

-- What BN254 promises of compressed points: they have 32 bytes, and the product of a point is a point.
pub record IsGroup (curve : Curve) (IsPoint : List ℕ → Type 0) : Type 0 where
  pub sized : (point : List ℕ) → IsPoint point → length point ≡ point_size
  pub closed :
      (scalar : ℕ) (point : List ℕ)
      → IsPoint point
      → (product : List ℕ) × (curve.scale scalar point ≡ some product) × IsPoint product

abbrev pub concat : List (List ℕ) → List ℕ
concat [] = []
concat (point ∷ points) = point ++ concat points

take-append : {A : Type 0} (n : ℕ) (xs ys : List A) → length xs ≡ n → take n (xs ++ ys) ≡ xs
take-append zero [] ys e = refl
take-append zero (x ∷ xs) ys e = absurd (omega (arith, e))
take-append (suc n) [] ys e = absurd (omega (arith, e))
take-append (suc n) (x ∷ xs) ys e = ap (◌∷◌ x) (take-append n xs ys (omega (arith, e)))

drop-append : {A : Type 0} (n : ℕ) (xs ys : List A) → length xs ≡ n → drop n (xs ++ ys) ≡ ys
drop-append zero [] ys e = refl
drop-append zero (x ∷ xs) ys e = absurd (omega (arith, e))
drop-append (suc n) [] ys e = absurd (omega (arith, e))
drop-append (suc n) (x ∷ xs) ys e = drop-append n xs ys (omega (arith, e))

module _ (curve : Curve) (IsPoint : List ℕ → Type 0) (group : IsGroup curve IsPoint) where
  -- The bytes are those of `n` points.
  abbrev pub IsCrs : ℕ → List ℕ → Type 0
  IsCrs n crs =
      (points : List (List ℕ)) × (length points ≡ n) × All IsPoint points × (crs ≡ concat points)

  length-concat :
      (points : List (List ℕ)) → All IsPoint points → length (concat points) ≡ 32 * length points
  length-concat [] h = omega arith
  length-concat (point ∷ points) h =
      omega (
        arith,
        length-append point (concat points),
        group.sized point h.0,
        length-concat points h.1,
      )

  scale_points_lem :
      (scalar : ℕ) (points : List (List ℕ))
      → All IsPoint points
      → (new : List ℕ) × (scale_points curve (length points) scalar (concat points) ≡ some new)
        × IsCrs (length points) new
  unfolding scale_points
  scale_points_lem scalar [] h = ([], refl, ([], refl, tt, refl))
  scale_points_lem scalar (point ∷ points) h =
      let (product, e, is_point) = group.closed scalar point h.0 in
      let (rest, f, (news, count, are_points, same)) = scale_points_lem scalar points h.1 in
      (
        product ++ rest,
        rw (
          scale_points,
          take-append 32 point (concat points) (group.sized point h.0),
          e,
          drop-append 32 point (concat points) (group.sized point h.0),
          f,
        ),
        (product ∷ news, ap suc count, (is_point, are_points), ap (◌++◌ product) same),
      )

  pub due_lem :
      (luck : Luck) (from : Address) (m : CrsManager) (n : ℕ)
      → 0 < n
      → get_elem? (participants_of m) m.current_contributor_idx ≡ some from
      → m.ceremony_active ≡ true
      → IsCrs n m.current_crs
      → (new : List ℕ) × IsDue curve luck from m new × IsCrs n new
  due_lem luck from m n some_point turn active (points, count, are_points, same) =
      let size : length m.current_crs ≡ 32 * length points =
        ap length same ∙ length-concat points are_points in
      let number : length m.current_crs / point_size ≡ length points = omega (arith, size) in
      let (new, scaled, is_crs) =
        scale_points_lem (scalar_of curve luck.entropy) points are_points in
      (
        new,
        record {
          turn = turn;
          active = active;
          whole = omega (arith, size);
          nonempty = omega (arith, number, count, some_point);
          scaled = rw (number, same) scaled;
        },
        rw (← count) is_crs,
      )
