-- ===== src/L1/Submission.antt =====
-- pkg/sequencer/l1_integration.go: the loop that sends decided batches to the contract.
use zkrollup_go.Base.{ℕ, List, [], ◌∷◌, Option, none, some, Bool, if◌then◌else◌}
use zkrollup_go.Outcome.{M, Outcome, ok, err, panic}
use zkrollup_go.State.{Transaction, Batch}
use zkrollup_go.Sequencer.{Sequencer}
use zkrollup_go.L1.{Client, Answers, Chain, submit_batch}

-- The sequencer beside the chain.
pub record Bridge : Type 0 where
  pub sequencer : Sequencer
  pub chain : Chain

-- []byte("dummy_proof")
abbrev pub dummy_proof : List ℕ
dummy_proof = b'd' ∷ b'u' ∷ b'm' ∷ b'm' ∷ b'y' ∷ b'_' ∷ b'p' ∷ b'r' ∷ b'o' ∷ b'o' ∷ b'f' ∷ []

module _ (hash : Transaction → Option (List ℕ)) (proof_generation : Bool)
    (l1_client : Option Client) where
  -- `submitBatchToL1`
  unfoldable pub submit_batch_to_l1 : Answers → Batch → M Chain (Unit {0})
  unfolding submit_batch
  submit_batch_to_l1 answers batch c = elim l1_client [
    | none ↦ ok tt c
    | some client ↦
        submit_batch hash client answers batch
          (if proof_generation then batch.proof else dummy_proof) c
  ]

  -- the batch is out of the queue, whatever came of it; an error is logged
  abbrev pub taken : Sequencer → Outcome Chain (Unit {0}) → Option Bridge
  taken q (ok _ c) = some (record { sequencer = q; chain = c })
  taken q (err _ c) = some (record { sequencer = q; chain = c })
  taken q panic = none

  unfoldable pub take_batch : Answers → Bridge → List Batch → Option Bridge
  unfolding submit_batch_to_l1
  take_batch answers b [] = some b
  take_batch answers b (batch ∷ rest) =
      taken (record b.sequencer { l1_submit = rest }) (submit_batch_to_l1 answers batch b.chain)

  -- A turn of the loop of submitBatchesToL1 that takes from the channel, if a batch waits there;
  -- `none` is a panic.
  unfoldable pub submit_turn : Answers → Bridge → Option Bridge
  unfolding take_batch
  submit_turn answers b = take_batch answers b b.sequencer.l1_submit

  -- turns with these answers of the chain
  unfoldable pub submit_batches_to_l1 : List Answers → Bridge → Option Bridge
  unfolding submit_turn
  submit_batches_to_l1 [] b = some b
  submit_batches_to_l1 (answers ∷ rest) b = elim (submit_turn answers b) [
    | none ↦ none
    | some b' ↦ submit_batches_to_l1 rest b'
  ]
