-- ===== src/Consensus/Crs/Isolation.antt =====
-- The ceremony beside the agreement on batches.
use zkrollup_go.Base.{◌≡◌, refl, Option, none, some, [], arith, ℕ, List, Bool, Bool-cases, inl, inr}
use zkrollup_go.Outcome.{M, Outcome, Error, ok, err, panic, or_panic}
use zkrollup_go.Consensus.Ceremony.{FilePath, PTauContributionMessage, PTauCeremonyState}
use zkrollup_go.Consensus.Types.{ConsensusMessage}
use zkrollup_go.Consensus.Pbft.{Pbft, Environment, broadcast}
use zkrollup_go.Outcome.Frame.{Leaves, Keeps, keeps, or_panic-Keeps}
use zkrollup_go.Consensus.Crs.{
  on_ceremony, dropped, contribute_to_crs_ceremony, start_crs_ceremony, handle_crs_ceremony_start,
  finalize_crs_ceremony, accept_contribution, save, checked, handle_crs_contribution,
  handle_crs_ceremony_complete, or_raise, complete,
}

-- A node's state without its ceremony and its log of broadcasts.
abbrev pub outside_ceremony : Pbft → Pbft
outside_ceremony p = record p {
  ptau_state = none;
  current_epoch = 0;
  ceremony_signals = 0;
  broadcasts = [];
}

-- the parts that write only the ceremony and the log of broadcasts
module _ (P : Pbft → Type 0)
    (blind : (q : Pbft) (o : Option PTauCeremonyState) (log : List (ConsensusMessage × Bool))
      → P q
      → P (record q { ptau_state = o; broadcasts = log })) where
  put_ceremony : (q : Pbft) (o : Option PTauCeremonyState) → P q → P (record q { ptau_state = o })
  put_ceremony q o h = blind q o q.broadcasts h

  pub broadcast-Keeps : (env : Environment) (msg : ConsensusMessage) → Keeps P (broadcast env msg)
  unfolding broadcast
  broadcast-Keeps env msg = record {
    run = λ q h. elim (Bool-cases (env.network q.broadcasts msg)) [
      | inl sent ↦ rw (sent) (blind q q.ptau_state _ h)
      | inr lost ↦ rw (lost) (blind q q.ptau_state _ h)
    ];
  }

  pub on_ceremony-Keeps :
      {A : Type 0} (s : PTauCeremonyState) (run : M PTauCeremonyState A)
      → Keeps P (on_ceremony s run)
  unfolding on_ceremony
  on_ceremony-Keeps {A} s run = record { run = λ q h. go q h (run s) }
    where
      go :
          (q : Pbft)
          → P q
          → (r : Outcome PTauCeremonyState A)
          → Leaves P (elim r [
            | ok a s' ↦ ok a (record q { ptau_state = some s' })
            | err e s' ↦ err e (record q { ptau_state = some s' })
            | panic ↦ panic
          ])
      go q h (ok a s') = put_ceremony q (some s') h
      go q h (err e s') = put_ceremony q (some s') h
      go q h panic = tt

  pub or_raise-Keeps : {A : Type 0} (e : Error) (o : Option A) → Keeps P (or_raise e o)
  unfolding or_raise
  or_raise-Keeps e none = record { run = λ q h. h }
  or_raise-Keeps e (some a) = record { run = λ q h. h }

  ceremony_or_panic-Keeps : Keeps P (λ q. or_panic q.ptau_state q)
  ceremony_or_panic-Keeps = record { run = λ q h. (or_panic-Keeps P q.ptau_state).run q h }

  dropped-Keeps : (run : M Pbft (Unit {0})) → Keeps P run → Keeps P (dropped run)
  unfolding dropped
  dropped-Keeps run h = record { run = λ q hq. go (run q) (h.run q hq) }
    where
      go :
          (r : Outcome Pbft (Unit {0}))
          → Leaves P r
          → Leaves P (elim r [ ok _ q' ↦ ok tt q' | err _ q' ↦ ok tt q' | panic ↦ panic ])
      go (ok _ q') h = h
      go (err _ q') h = h
      go panic h = tt

  ruleset parts = (
    keeps, or_raise-Keeps, on_ceremony-Keeps, broadcast-Keeps, dropped-Keeps,
    ceremony_or_panic-Keeps, put_ceremony,
  )

  contribute-Keeps : (env : Environment) → Keeps P (contribute_to_crs_ceremony env)
  unfolding contribute_to_crs_ceremony
  contribute-Keeps env = search parts depth 14

  pub own_contribution-Keeps :
      (env : Environment) → Keeps P (dropped (contribute_to_crs_ceremony env))
  own_contribution-Keeps env = dropped-Keeps (contribute_to_crs_ceremony env) (contribute-Keeps env)

  save-Keeps :
      (env : Environment) (msg : ConsensusMessage) (c : PTauContributionMessage)
      → Keeps P (save env msg c)
  unfolding save
  save-Keeps env msg c = search parts depth 14

  checked-Keeps :
      (env : Environment) (msg : ConsensusMessage) (s : PTauCeremonyState)
      → Keeps P (checked env msg s)
  unfolding checked
  checked-Keeps env msg s = search (parts, save-Keeps) depth 14

  pub accept_contribution-Keeps :
      (env : Environment) (msg : ConsensusMessage) → Keeps P (accept_contribution env msg)
  unfolding accept_contribution
  accept_contribution-Keeps env msg = search (parts, checked-Keeps) depth 14

module _ (env : Environment) (p : Pbft) where
  abbrev pub IsLike : Pbft → Type 0
  IsLike q = outside_ceremony q ≡ outside_ceremony p

  like :
      (q : Pbft) (o : Option PTauCeremonyState) (log : List (ConsensusMessage × Bool))
      → IsLike q
      → IsLike (record q { ptau_state = o; broadcasts = log })
  like q o log h = h

  ruleset here = (
    keeps, or_raise-Keeps, on_ceremony-Keeps, broadcast-Keeps, dropped-Keeps,
    ceremony_or_panic-Keeps, contribute-Keeps, accept_contribution-Keeps, like,
  )

  pub start_crs_ceremony-Keeps : Keeps IsLike (start_crs_ceremony env)
  unfolding start_crs_ceremony
  start_crs_ceremony-Keeps = search here depth 14

  pub handle_crs_ceremony_start-Keeps :
      (msg : ConsensusMessage) → Keeps IsLike (handle_crs_ceremony_start env msg)
  unfolding handle_crs_ceremony_start
  handle_crs_ceremony_start-Keeps msg = search here depth 14

  finalize_crs_ceremony-Keeps : Keeps IsLike (finalize_crs_ceremony env)
  unfolding finalize_crs_ceremony
  finalize_crs_ceremony-Keeps = search here depth 14

  pub handle_crs_contribution-Keeps :
      (msg : ConsensusMessage) → Keeps IsLike (handle_crs_contribution env msg)
  unfolding handle_crs_contribution
  handle_crs_contribution-Keeps msg = search (here, finalize_crs_ceremony-Keeps) depth 14

  complete-IsLike :
      (epoch : ℕ) (path : FilePath) (o : Option PTauCeremonyState) (q : Pbft)
      → IsLike q
      → IsLike (complete epoch path o q)
  unfolding complete
  complete-IsLike epoch path none q h = h
  complete-IsLike epoch path (some s) q h = ground arith

  pub handle_crs_ceremony_complete-Keeps :
      (msg : ConsensusMessage) → Keeps IsLike (handle_crs_ceremony_complete env msg)
  unfolding handle_crs_ceremony_complete
  handle_crs_ceremony_complete-Keeps msg = search (here, complete-IsLike) depth 14

-- No message of a ceremony, and no ceremony of the node's own, touches the agreement on batches:
-- whether the handler succeeds or fails, all of the node's state is as before but the ceremony's and
-- the log of broadcasts.
pub crs_handlers_isolated :
    (env : Environment) (msg : ConsensusMessage) (p : Pbft)
    → Leaves (IsLike env p) (start_crs_ceremony env p)
      × Leaves (IsLike env p) (handle_crs_ceremony_start env msg p)
      × Leaves (IsLike env p) (handle_crs_contribution env msg p)
      × Leaves (IsLike env p) (handle_crs_ceremony_complete env msg p)
crs_handlers_isolated env msg p = (
  (start_crs_ceremony-Keeps env p).run p refl,
  (handle_crs_ceremony_start-Keeps env p msg).run p refl,
  (handle_crs_contribution-Keeps env p msg).run p refl,
  (handle_crs_ceremony_complete-Keeps env p msg).run p refl,
)
