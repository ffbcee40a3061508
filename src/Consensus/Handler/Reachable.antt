-- ===== src/Consensus/Handler/Reachable.antt =====
-- The states of a node that receives any messages from the network, in any order, and what holds of
-- all of them.
use zkrollup_go.Base.{
  ◌≡◌, sym, eqb_refl, string_eq, refl, ap, ◌+◌, ℕ, List, [], ◌∷◌, ◌++◌, Bool, true, Option, none,
  some, ◌∙◌, arith, String, length,
}
use zkrollup_go.Consensus.Types.{
  MessageType, ConsensusMessage, leader_rotation, crs_ceremony_start, crs_contribution,
  crs_ceremony_complete,
}
use zkrollup_go.Consensus.Pbft.{
  Pbft, Environment, new_pbft, add_node_id, is_known, update_total_nodes,
}
use zkrollup_go.Outcome.Frame.{Leaves, Leaves-weaken, Ends, Leaves-end}
use zkrollup_go.Consensus.Crs.Isolation.{
  outside_ceremony, handle_crs_ceremony_start-Keeps, handle_crs_contribution-Keeps,
  handle_crs_ceremony_complete-Keeps, start_crs_ceremony-Keeps,
}
use zkrollup_go.Consensus.Crs.{start_crs_ceremony}
use zkrollup_go.Consensus.Rounds.{handle_leader_rotation}
use zkrollup_go.Consensus.Rounds.Decisions.{IsAccounted, num_decided, handle_round-Keeps}
use zkrollup_go.Consensus.Handler.{handle_type, handle, handle_decoded, handle_message}

is_known-append :
    (id : String) (xs ys : List String) → is_known id xs ≡ true → is_known id (xs ++ ys) ≡ true
unfolding is_known
is_known-append id [] ys h = absurd (ground arith)
is_known-append id (x ∷ xs) ys h = ground (arith, is_known-append id xs ys)

module _ (env : Environment) (k : ℕ) where
  outside-IsAccounted :
      (p q : Pbft) → IsAccounted k p → outside_ceremony q ≡ outside_ceremony p → IsAccounted k q
  outside-IsAccounted p q h e = (
    ap (λ r. length r.decided_batch + k) e ∙ h.0 ∙ ap (λ r. num_decided r.states) (sym e),
    ap (λ r. is_known r.node_id r.node_ids) e ∙ h.1,
  )

  handle_type-IsAccounted :
      (kind : MessageType) (msg : ConsensusMessage) (q : Pbft)
      → IsAccounted k q
      → Leaves (IsAccounted k) (handle_type env kind msg q)
  unfolding handle_type handle_leader_rotation
  handle_type-IsAccounted crs_ceremony_start msg q h =
      Leaves-weaken _ (λ r. outside-IsAccounted q r h)
        ((handle_crs_ceremony_start-Keeps env q msg).run q refl)
  handle_type-IsAccounted crs_contribution msg q h =
      Leaves-weaken _ (λ r. outside-IsAccounted q r h)
        ((handle_crs_contribution-Keeps env q msg).run q refl)
  handle_type-IsAccounted crs_ceremony_complete msg q h =
      Leaves-weaken _ (λ r. outside-IsAccounted q r h)
        ((handle_crs_ceremony_complete-Keeps env q msg).run q refl)
  handle_type-IsAccounted leader_rotation msg q h = h
  handle_type-IsAccounted _ msg q h = (handle_round-Keeps env k msg).run q h

  add_node_id-IsAccounted :
      (id : String) (q : Pbft) → IsAccounted k q → IsAccounted k (add_node_id id q)
  unfolding add_node_id
  add_node_id-IsAccounted id q h =
      ground (arith, is_known-append q.node_id q.node_ids (id ∷ []) h.1)

  pub handle_message-IsAccounted :
      (bytes : List ℕ) (q : Pbft)
      → IsAccounted k q
      → Leaves (IsAccounted k) (handle_message env bytes q)
  unfolding handle_message handle
  handle_message-IsAccounted [] q h = h
  handle_message-IsAccounted (b ∷ bs) q h = go (env.decode (b ∷ bs))
    where
      go : (o : Option ConsensusMessage) → Leaves (IsAccounted k) (handle_decoded env o q)
      go none = h
      go (some msg) =
          handle_type-IsAccounted msg.msg_type msg (add_node_id msg.node_id q)
            (add_node_id-IsAccounted msg.node_id q h)

-- The states of a node from its start, under any messages in any order, any changes of its count of
-- nodes, and ceremonies of its own; it proposes no batch.
pub data Reachable (env : Environment) (node_id : String) (is_leader : Bool) : Pbft → Type 0 where
  start : Reachable env node_id is_leader (new_pbft node_id is_leader)
  receive :
      {p q : Pbft} (bytes : List ℕ)
      → Reachable env node_id is_leader p
      → Ends (handle_message env bytes p) q
      → Reachable env node_id is_leader q
  recount :
      {p : Pbft} (count : ℕ)
      → Reachable env node_id is_leader p
      → Reachable env node_id is_leader (update_total_nodes count p)
  begin_ceremony :
      {p q : Pbft}
      → Reachable env node_id is_leader p
      → Ends (start_crs_ceremony env p) q
      → Reachable env node_id is_leader q

module _ (env : Environment) (node_id : String) (is_leader : Bool) where
  -- In every state that a node reaches by messages, whatever they say, it has handed over exactly as
  -- many batches as there are rounds that it has decided, so no round twice; and it knows itself.
  pub Reachable-IsAccounted : (p : Pbft) → Reachable env node_id is_leader p → IsAccounted 0 p
  unfolding new_pbft update_total_nodes num_decided is_known
  Reachable-IsAccounted _ start = (refl, ground (arith, eqb_refl node_id))
  Reachable-IsAccounted q (receive {p} bytes r e) =
      Leaves-end (IsAccounted 0) (handle_message env bytes p) q
        (handle_message-IsAccounted env 0 bytes p (Reachable-IsAccounted p r)) e
  Reachable-IsAccounted _ (recount {p} count r) = Reachable-IsAccounted p r
  Reachable-IsAccounted q (begin_ceremony {p} r e) =
      Leaves-end (IsAccounted 0) (start_crs_ceremony env p) q
        (Leaves-weaken _ (λ s. outside-IsAccounted env 0 p s (Reachable-IsAccounted p r))
          ((start_crs_ceremony-Keeps env p).run p refl))
        e
