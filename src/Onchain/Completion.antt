-- ===== src/Onchain/Completion.antt =====
-- pkg/sequencer/crs_orchestrator.go with contracts/CRSManager.sol: a ceremony whose CRS has points is
-- completed by the turns of its participants.
use zkrollup_go.Base.{
  ◌≡◌, refl, sym, ap, ◌∙◌, ℕ, ◌+◌, ◌<◌, List, [], ◌∷◌, ◌++◌, some, true, false, nat_eq, length,
  length-append, get_elem?, map, All, Map, insert, lookup, lookup-insert, arith,
}
use mathlib.Core.List.{append_assoc}
use zkrollup_go.State.{Address}
use zkrollup_go.Onchain.{
  CrsManager, CrsInfo, participants_of, is_registered, is_last, is_open, anchored,
}
use zkrollup_go.Onchain.Orchestrator.{Curve, Luck, step, run_steps}
use zkrollup_go.Onchain.Points.{IsGroup, IsCrs, due_lem}
use zkrollup_go.Onchain.Steps.{IsLucky, contributed, step_due, finish_later, finish_last}

-- Nobody registers twice.
abbrev pub AreDistinct : List Address → Type 0
AreDistinct [] = Unit
AreDistinct (x ∷ xs) = (is_registered x xs ≡ false) × AreDistinct xs

pub get_elem_middle :
    {A : Type 0} (xs : List A) (y : A) (ys : List A) → get_elem? (xs ++ y ∷ ys) (length xs) ≡ some y
get_elem_middle [] y ys = refl
get_elem_middle (x ∷ xs) y ys = get_elem_middle xs y ys

pub is_last-append :
    (a : Address) (xs : List Address) (y : Address) (ys : List Address)
    → is_last a (xs ++ y ∷ ys) ≡ is_last a (y ∷ ys)
unfolding is_last
is_last-append a [] y ys = refl
is_last-append a (x ∷ []) y ys = refl
is_last-append a (x ∷ x' ∷ xs) y ys = is_last-append a (x' ∷ xs) y ys

pub is_last_absent :
    (a y : Address) (ys : List Address)
    → is_registered a (y ∷ ys) ≡ false
    → is_last a (y ∷ ys) ≡ false
unfolding is_last is_registered
is_last_absent a y [] h = ground arith
is_last_absent a y (z ∷ zs) h = is_last_absent a z zs (ground arith)

lookup_own : {V : Type 0} (k : ℕ) (v : V) (m : Map ℕ V) → lookup k (insert k v m) ≡ some v
lookup_own k v m = lookup-insert k k v m ∙ ground arith

abbrev pub nodes : List (Address × Luck) → List Address
nodes turns = map (λ turn. turn.0) turns

participants_of-contributed :
    (new_crs : List ℕ) (m : CrsManager)
    → participants_of (contributed new_crs m) ≡ participants_of m
unfolding participants_of
participants_of-contributed new_crs m = refl

module _ (curve : Curve) (IsPoint : List ℕ → Type 0) (group : IsGroup curve IsPoint) (n : ℕ)
    (some_point : 0 < n) where
  -- The round is over, and the contract keeps its participants and a CRS of as many points.
  abbrev pub Completes : CrsManager → CrsManager → Type 0
  Completes m m' =
      (m'.current_round ≡ m.current_round + 1)
      × (m'.ceremony_active ≡ false)
      × ((info : CrsInfo) × (lookup m.current_round m'.crs_history ≡ some info)
          × (info.participants ≡ participants_of m)
          × IsCrs curve IsPoint group n info.crs)

  -- The contract waits for the participant after those who are done.
  pub record Waits (done rest : List Address) (m : CrsManager) : Type 0 where
    pub listed : participants_of m ≡ done ++ rest
    pub reached : m.current_contributor_idx ≡ length done
    pub active : m.ceremony_active ≡ true
    pub points : IsCrs curve IsPoint group n m.current_crs
    pub fresh : is_open (lookup m.current_round m.crs_history) ≡ true

  anchored-Completes :
      (now : ℕ) (new_crs : List ℕ) (m : CrsManager)
      → IsCrs curve IsPoint group n new_crs
      → Completes m (anchored now (contributed new_crs m))
  unfolding participants_of anchored
  anchored-Completes now new_crs m is_crs =
      let info : CrsInfo = record {
        round = m.current_round;
        crs = new_crs;
        timestamp = now;
        participants = participants_of m;
      } in
      (refl, refl, (info, lookup_own m.current_round info m.crs_history, refl, is_crs))

  turn_lem :
      (from : Address) (done rest : List Address) (m : CrsManager)
      → Waits done (from ∷ rest) m
      → get_elem? (participants_of m) m.current_contributor_idx ≡ some from
  turn_lem from done rest m w = rw (w.listed, w.reached) (get_elem_middle done from rest)

  last_turn :
      (from : Address) (luck : Luck) (done : List Address) (m : CrsManager)
      → Waits done (from ∷ []) m
      → IsLucky luck
      → Completes m (step curve luck from m)
  unfolding is_last
  last_turn from luck done m w lucky =
      let (new, due, is_crs) =
        due_lem curve IsPoint group luck from m n some_point (turn_lem from done [] m w) w.active
          w.points in
      let after : CrsManager = contributed new m in
      let same : participants_of after ≡ done ++ from ∷ [] =
        participants_of-contributed new m ∙ w.listed in
      let count : length (participants_of after) ≡ length done + 1 =
        ap length same ∙ length-append done (from ∷ []) in
      let last : is_last from (participants_of after) ≡ true =
        rw (same) (is_last-append from done from [] ∙ ground arith) in
      rw
        (
          step_due curve luck from m new lucky due,
          finish_last luck from m after lucky last w.active (omega (arith, count, w.reached))
              (omega (arith, count)) w.fresh,
        )
        (anchored-Completes luck.now new m is_crs)

  later_turn :
      (from next : Address) (luck : Luck) (done rest : List Address) (m : CrsManager)
      → Waits done (from ∷ next ∷ rest) m
      → is_registered from (next ∷ rest) ≡ false
      → IsLucky luck
      → (new : List ℕ) × (step curve luck from m ≡ contributed new m)
        × Waits (done ++ from ∷ []) (next ∷ rest) (contributed new m)
  unfolding is_last
  later_turn from next luck done rest m w absent lucky =
      let (new, due, is_crs) =
        due_lem curve IsPoint group luck from m n some_point (turn_lem from done (next ∷ rest) m w)
          w.active w.points in
      let after : CrsManager = contributed new m in
      let same : participants_of after ≡ done ++ from ∷ next ∷ rest =
        participants_of-contributed new m ∙ w.listed in
      let other : is_last from (participants_of after) ≡ false =
        rw (same)
          (is_last-append from done from (next ∷ rest) ∙ is_last_absent from next rest absent) in
      (
        new,
        step_due curve luck from m new lucky due ∙ finish_later luck from m after lucky other,
        record {
          listed = same ∙ sym (append_assoc done (from ∷ []) (next ∷ rest));
          reached = omega (arith, w.reached, length-append done (from ∷ []));
          active = w.active;
          points = is_crs;
          fresh = w.fresh;
        },
      )

  -- In an active ceremony with a CRS of points, where no participant is left twice and the contract
  -- waits for the participant after those who are done: one turn of each who is left, in their order
  -- and with all calls answered, completes the round. The contract goes on to the next round, and
  -- keeps the participants and a CRS of as many points.
  pub run_steps-Completes :
      (turns : List (Address × Luck)) (from : Address) (luck : Luck) (done : List Address)
      (m : CrsManager)
      → Waits done (from ∷ nodes turns) m
      → AreDistinct (from ∷ nodes turns)
      → IsLucky luck
      → All (λ turn. IsLucky turn.1) turns
      → Completes m (run_steps curve ((from, luck) ∷ turns) m)
  unfolding run_steps participants_of
  run_steps-Completes [] from luck done m w distinct lucky all = last_turn from luck done m w lucky
  run_steps-Completes ((next, luck') ∷ turns) from luck done m w distinct lucky all =
      let (new, e, w') = later_turn from next luck done (nodes turns) m w distinct.0 lucky in
      rw (run_steps, e)
        (run_steps-Completes turns next luck' (done ++ from ∷ []) (contributed new m) w' distinct.1
          all.0 all.1)
