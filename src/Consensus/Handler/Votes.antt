-- ===== src/Consensus/Handler/Votes.antt =====
-- pkg/consensus/pbft.go, HandleMessage: the votes for a round that is open.
use zkrollup_go.Base.{
  ◌≡◌, refl, ap, ◌∙◌, inl, inr, List, [], Option, none, some, Bool, true, false, String, lookup,
  lookup-insert, eqb_refl, string_eq, ◌==◌, nat_eq, if◌then◌else◌, Bool-cases, arith,
}
use zkrollup_go.Outcome.{Outcome, ok, err, wrong_view, bind_ok}
use zkrollup_go.Outcome.Returns.{Reaches}
use zkrollup_go.State.{Batch}
use zkrollup_go.Consensus.Types.{
  new_consensus_state, is_pre_prepare, MessageType, ConsensusMessage, ConsensusState, pre_prepare,
  prepare, commit,
}
use zkrollup_go.Consensus.Pbft.{Pbft, Environment, put_state, is_known, add_node_id}
use zkrollup_go.Consensus.Rounds.{
  on_prepare, on_commit, find_or_create, dispatch, handle_round, on_pre_prepare,
}
use zkrollup_go.Consensus.Rounds.Votes.{IsIn, on_prepare_lem, on_pre_prepare_lem}
use zkrollup_go.Consensus.Handler.{handle, handle_type}

pub add_known : (id : String) (q : Pbft) → is_known id q.node_ids ≡ true → add_node_id id q ≡ q
unfolding add_node_id
add_known id q known = rw (add_node_id, known) refl

module _ (env : Environment) (msg : ConsensusMessage) (state : ConsensusState) (q : Pbft)
    (known : is_known msg.node_id q.node_ids ≡ true)
    (found : lookup msg.batch_hash q.states ≡ some state) where
  round_found :
      (msg.view == q.view) ≡ true → handle_round env msg q ≡ dispatch env msg.msg_type msg state q
  unfolding handle_round find_or_create
  round_found same =
      let here : find_or_create env msg q ≡ ok state q = rw (find_or_create, found) refl in
      rw (handle_round, same)
        (bind_ok q (find_or_create env msg) (λ s. dispatch env msg.msg_type msg s) state q here)

  round_elsewhere : (msg.view == q.view) ≡ false → handle_round env msg q ≡ err wrong_view q
  unfolding handle_round find_or_create
  round_elsewhere other = rw (handle_round, other) refl

  pub handle_lem :
      (kind : MessageType) → msg.msg_type ≡ kind → handle env msg q ≡ handle_type env kind msg q
  unfolding handle
  handle_lem kind e =
      rw (handle, add_known msg.node_id q known) (ap (λ k. handle_type env k msg q) e)

  -- A prepare message is handled where it is of the node's view.
  pub handle_prepare :
      msg.msg_type ≡ prepare
      → handle env msg q
        ≡ (if msg.view == q.view then on_prepare env msg state q else err wrong_view q)
  unfolding handle_type dispatch
  handle_prepare kind = handle_lem prepare kind ∙ (elim (Bool-cases (msg.view == q.view)) [
    | inl same ↦ rw (same) (round_found same ∙ ap (λ k. dispatch env k msg state q) kind)
    | inr other ↦ rw (other) (round_elsewhere other)
  ])

  -- So is a commit message.
  pub handle_commit :
      msg.msg_type ≡ commit
      → handle env msg q
        ≡ (if msg.view == q.view then on_commit env msg state q else err wrong_view q)
  unfolding handle_type dispatch
  handle_commit kind = handle_lem commit kind ∙ (elim (Bool-cases (msg.view == q.view)) [
    | inl same ↦ rw (same) (round_found same ∙ ap (λ k. dispatch env k msg state q) kind)
    | inr other ↦ rw (other) (round_elsewhere other)
  ])

IsIn-cong :
    {h h' : String} {b b' : Option Batch} {d d' : Bool} (seen : List String) (r : Pbft)
    (o : Outcome Pbft (Unit {0}))
    → h ≡ h'
    → b ≡ b'
    → d ≡ d'
    → Reaches (IsIn h b d seen r) o
    → Reaches (IsIn h' b' d' seen r) o
IsIn-cong seen r o eh eb ed x = rw⁻¹ (eh, eb, ed) x

-- A prepare message changes no vote to commit and decides nothing.
pub prepare_step :
    (env : Environment) (hash : String) (batch : Option Batch) (d : Bool) (seen : List String)
    (r : Pbft) (msg : ConsensusMessage) (q : Pbft)
    → msg.msg_type ≡ prepare
    → msg.batch_hash ≡ hash
    → is_known msg.node_id q.node_ids ≡ true
    → IsIn hash batch d seen r q
    → Reaches (IsIn hash batch d seen r) (handle env msg q)
prepare_step env hash batch d seen r msg q kind same_hash known
      (out, (state, found, sb, sd, votes)) =
    let here : lookup msg.batch_hash q.states ≡ some state =
      ap (λ h. lookup h q.states) same_hash ∙ found in
    rw (handle_prepare env msg state q known here kind) (elim (Bool-cases (msg.view == q.view)) [
      | inl same ↦ rw (same) (
          IsIn-cong seen r (on_prepare env msg state q) same_hash sb sd
            (on_prepare_lem env msg state seen r votes q (out, (state, here, refl, refl, votes))))
      | inr other ↦ rw (other) (out, (state, found, sb, sd, votes))
    ])

-- A pre-prepare message for an unknown batch opens a round, whether or not the node can send its
-- prepare message.
pub opening_step :
    (env : Environment) (msg : ConsensusMessage) (p : Pbft)
    → msg.msg_type ≡ pre_prepare
    → msg.view ≡ p.view
    → is_known msg.node_id p.node_ids ≡ true
    → lookup msg.batch_hash p.states ≡ none
    → Reaches (IsIn msg.batch_hash msg.batch false [] p) (handle env msg p)
unfolding handle handle_type handle_round find_or_create dispatch put_state new_consensus_state
opening_step env msg p kind same_view known missing =
    let state : ConsensusState =
      record (new_consensus_state env.hash_batch msg.view msg.sequence msg.batch) {
        pre_prepare_msg = some msg;
      } in
    let p' : Pbft = put_state msg.batch_hash state p in
    let same : (msg.view == p.view) ≡ true = (nat_eq.eqb_iff msg.view p.view).1 same_view in
    let opens : find_or_create env msg p ≡ ok state p' =
      rw (find_or_create, missing, ap is_pre_prepare kind) refl in
    let found : lookup msg.batch_hash p'.states ≡ some state = ground (
      arith,
      lookup-insert msg.batch_hash msg.batch_hash state p.states,
      eqb_refl msg.batch_hash,
    ) in
    let round : handle_round env msg p ≡ dispatch env msg.msg_type msg state p' =
      rw (handle_round, same)
        (bind_ok p (find_or_create env msg) (λ s. dispatch env msg.msg_type msg s) state p'
          opens) in
    let handled : handle env msg p ≡ on_pre_prepare env msg state p' =
      rw (handle, add_known msg.node_id p known)
        (ap (λ k. handle_type env k msg p) kind
          ∙ round
          ∙ ap (λ k. dispatch env k msg state p') kind) in
    rw (handled)
      (on_pre_prepare_lem env msg state [] p tt p' (refl, (state, found, refl, refl, tt)))
