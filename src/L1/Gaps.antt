-- ===== src/L1/Gaps.antt =====
-- pkg/sequencer/l1_integration.go with contracts/ZKRollup.sol: what comes of a batch that was missed.
use zkrollup_go.Base.{
  ◌≡◌, ◌≢◌, sym, ap, ◌∙◌, ◌⊎◌, inl, inr, ℕ, ◌+◌, ◌^◌, ◌<◌, List, [], ◌∷◌, Option, none, some, Bool,
  true, lookup, lookup-insert, nat_eq, nat_eqb, nat_eqb_iff, if◌then◌else◌, All, Bool-cases,
  Option-cases, arith,
}
use zkrollup_go.Outcome.{Outcome, ok, err, panic}
use zkrollup_go.Outcome.Frame.{Leaves, Keeps, keeps}
use zkrollup_go.State.{Address, Transaction, Batch}
use zkrollup_go.Sequencer.{Sequencer}
use zkrollup_go.L1.{
  Client, Answers, Chain, ZkRollup, accept_batch, mine, submit_batch, get_transact_opts,
}
use zkrollup_go.L1.Submission.{
  Bridge, dummy_proof, submit_batch_to_l1, taken, take_batch, submit_turn, submit_batches_to_l1,
}
use zkrollup_go.L1.Numbers.{number_sent, number_sent_lem, accept_other}

-- The contract waits for a number before the batch's, or the batch has the number 0.
abbrev pub IsMissed : ZkRollup → Batch → Type 0
IsMissed r batch =
    (batch.batch_number < 2 ^ 63)
    × ((batch.batch_number ≡ 0) ⊎ (r.current_batch_number + 1 < batch.batch_number))

not_next_number :
    (batch : Batch) (r : ZkRollup)
    → IsMissed r batch
    → number_sent batch ≢ r.current_batch_number + 1
not_next_number batch r missed = ground (arith, number_sent_lem batch missed.0)

no_run : {b : Bridge} → none ≡ some b → ⊥
no_run e = cc

module _ (at : Address) (r : ZkRollup) where
  abbrev Waits : Chain → Type 0
  Waits c = lookup at c.rollups ≡ some r

  not_next :
      (batch : Batch) (found : ZkRollup)
      → IsMissed r batch
      → found ≡ r
      → number_sent batch ≢ found.current_batch_number + 1
  not_next batch found missed e = rw (e) (not_next_number batch r missed)

  is_it :
      (to : Address) (c : Chain) (found : ZkRollup)
      → lookup to c.rollups ≡ some found
      → Waits c
      → nat_eqb to at ≡ true
      → found ≡ r
  is_it to c found e w same =
      let there : to ≡ at = (nat_eqb_iff to at).0 same in
      let twice : some found ≡ some r = sym e ∙ ap (λ a. lookup a c.rollups) there ∙ w in cc

  mine_missed :
      (now : ℕ) (to : Address) (batch : Batch) (c : Chain)
      → IsMissed r batch
      → Waits c
      → Waits (mine now to (number_sent batch) batch.state_root c)
  unfolding mine
  mine_missed now to batch c missed w = elim (Option-cases (lookup to c.rollups)) [
    | inl none_there ↦ rw (mine, none_there) w
    | inr (found, e) ↦
        rw (mine, e)
          (lookup-insert to at (accept_batch now (number_sent batch) batch.state_root found)
              c.rollups
            ∙ elim (Bool-cases (nat_eqb to at)) [
              | inl same ↦ rw (same) (
                  ap some (
                    accept_other now (number_sent batch) batch.state_root found
                      (not_next batch found missed (is_it to c found e w same))
                    ∙ is_it to c found e w same))
              | inr other ↦ rw (other) w
            ])
  ]

  module _ (hash : Transaction → Option (List ℕ)) (batch : Batch) (missed : IsMissed r batch) where
    submit_batch-Keeps :
        (client : Client) (answers : Answers) (proof : List ℕ)
        → Keeps Waits (submit_batch hash client answers batch proof)
    unfolding submit_batch get_transact_opts
    submit_batch-Keeps client answers proof = search (keeps, mine_missed) depth 14

  module _ (hash : Transaction → Option (List ℕ)) (proof_generation : Bool)
      (l1_client : Option Client) where
    submit_batch_to_l1-Keeps :
        (answers : Answers) (batch : Batch)
        → IsMissed r batch
        → Keeps Waits (submit_batch_to_l1 hash proof_generation l1_client answers batch)
    unfolding submit_batch_to_l1
    submit_batch_to_l1-Keeps answers batch missed = record { run = go l1_client }
      where
        go :
            (o : Option Client) (c : Chain)
            → Waits c
            → Leaves Waits (submit_batch_to_l1 hash proof_generation o answers batch c)
        go none c w = w
        go (some client) c w =
            (submit_batch-Keeps hash batch missed client answers
                (if proof_generation then batch.proof else dummy_proof)).run
              c w

    -- After a turn, if the process goes on.
    abbrev Left : Option Bridge → Type 0
    Left none = Unit
    Left (some b) = Waits b.chain × All (IsMissed r) b.sequencer.l1_submit

    taken-Left :
        (q : Sequencer) (rest : List Batch) (o : Outcome Chain (Unit {0}))
        → All (IsMissed r) rest
        → Leaves Waits o
        → Left (taken hash proof_generation l1_client (record q { l1_submit = rest }) o)
    taken-Left q rest (ok _ c) missed w = (w, missed)
    taken-Left q rest (err _ c) missed w = (w, missed)
    taken-Left q rest panic missed w = tt

    submit_turn-Left :
        (answers : Answers) (b : Bridge)
        → Waits b.chain
        → All (IsMissed r) b.sequencer.l1_submit
        → Left (submit_turn hash proof_generation l1_client answers b)
    unfolding submit_turn take_batch
    submit_turn-Left answers b w missed = go b.sequencer.l1_submit missed
      where
        go :
            (batches : List Batch)
            → All (IsMissed r) batches
            → Left (take_batch hash proof_generation l1_client answers b batches)
        go [] m = (w, missed)
        go (batch ∷ rest) m =
            taken-Left b.sequencer rest
              (submit_batch_to_l1 hash proof_generation l1_client answers batch b.chain) m.1
              ((submit_batch_to_l1-Keeps answers batch m.0).run b.chain w)

    -- While all the batches in the queue have the number 0 or come after the number that the
    -- contract waits for, no turn changes the contract, whatever the node and the chain answer: a
    -- batch that was missed keeps all that follow it off the contract.
    pub submit_batches_to_l1_missed :
        (answers : List Answers) (b b' : Bridge)
        → lookup at b.chain.rollups ≡ some r
        → All (IsMissed r) b.sequencer.l1_submit
        → submit_batches_to_l1 hash proof_generation l1_client answers b ≡ some b'
        → lookup at b'.chain.rollups ≡ some r
    unfolding submit_batches_to_l1
    submit_batches_to_l1_missed [] b b' w missed e = rw (← same) w
      where
        same : b ≡ b'
        same = cc
    submit_batches_to_l1_missed (turn ∷ more) b b' w missed e =
        elim (Option-cases (submit_turn hash proof_generation l1_client turn b)) [
          | inl panicked ↦ absurd (no_run (rw (submit_batches_to_l1, panicked) at e))
          | inr (next, f) ↦
              let left : Left (some next) = rw (f) at (submit_turn-Left turn b w missed) in
              submit_batches_to_l1_missed more next b' left.0 left.1
                (rw (submit_batches_to_l1, f) at e)
        ]
