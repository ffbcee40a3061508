-- ===== src/L1/Anchoring.antt =====
-- pkg/sequencer/l1_integration.go with contracts/ZKRollup.sol: which batches the contract takes.
use zkrollup_go.Base.{
  ◌≡◌, ◌≢◌, refl, ap, ◌∙◌, inl, inr, ℕ, ◌+◌, ◌^◌, ◌≤◌, ◌<◌, List, [], ◌∷◌, Option, none, some, Bool,
  true, lookup, nat_eq, if◌then◌else◌, length, All, Option-cases, arith,
}
use zkrollup_go.Outcome.{ok}
use zkrollup_go.State.{Address, Transaction, Batch}
use zkrollup_go.Sequencer.{Sequencer}
use zkrollup_go.L1.{
  Client, Answers, Chain, ZkRollup, store_batch, accept_batch, mine, hash_all, submit_batch,
  get_transact_opts,
}
use zkrollup_go.L1.Submission.{
  Bridge, dummy_proof, submit_batch_to_l1, take_batch, submit_turn, submit_batches_to_l1,
}
use zkrollup_go.L1.Numbers.{
  number_sent, number_sent_lem, accept_next, mine_lem, Anchors, Anchors-cons,
}

-- The node and the chain answer, and the transaction is sent.
abbrev pub IsGood : Answers → Type 0
IsGood answers =
    (answers.pending_nonce ≢ none)
    × (answers.gas_price ≢ none)
    × (answers.has_transactor ≡ true)
    × (answers.sends ≡ true)

-- The numbers of the batches follow each other from `k` on.
abbrev pub AreConsecutive : ℕ → List Batch → Type 0
AreConsecutive k [] = Unit
AreConsecutive k (batch ∷ rest) =
    (batch.batch_number ≡ k) × (k < 2 ^ 63) × AreConsecutive (k + 1) rest

module _ (hash : Transaction → Option (List ℕ)) where
  good_submit :
      (client : Client) (answers : Answers) (batch : Batch) (proof : List ℕ) (c : Chain)
      (at : Address) (digests : List (List ℕ))
      → client.contract ≡ some at
      → IsGood answers
      → hash_all hash batch.transactions ≡ some digests
      → submit_batch hash client answers batch proof c
        ≡ ok tt (mine answers.now at (number_sent batch) batch.state_root c)
  unfolding submit_batch get_transact_opts
  good_submit client answers batch proof c at digests e good h = ground arith

module _ (hash : Transaction → Option (List ℕ)) (proof_generation : Bool) (client : Client)
    (at : Address) (deployed : client.contract ≡ some at) where
  abbrev pub IsHashable : Batch → Type 0
  IsHashable batch = hash_all hash batch.transactions ≢ none

  good_turn :
      (answers : Answers) (q : Sequencer) (c : Chain) (batch : Batch) (rest : List Batch)
      → q.l1_submit ≡ batch ∷ rest
      → IsGood answers
      → IsHashable batch
      → submit_turn hash proof_generation
          (some client)
          answers
          (record { sequencer = q; chain = c })
        ≡ some (record {
          sequencer = record q { l1_submit = rest };
          chain = mine answers.now at (number_sent batch) batch.state_root c;
        })
  unfolding submit_turn submit_batch_to_l1 take_batch
  good_turn answers q c batch rest e good hashable =
      elim (Option-cases (hash_all hash batch.transactions)) [
        | inl nil ↦ absurd (hashable nil)
        | inr (digests, h) ↦ rw (
          submit_turn,
          e,
          take_batch,
          submit_batch_to_l1,
          good_submit hash client answers batch
              (if proof_generation then batch.proof else dummy_proof) c at digests deployed good h,
        )
      ]

  empty_turn :
      (answers : Answers) (b : Bridge)
      → b.sequencer.l1_submit ≡ []
      → submit_turn hash proof_generation (some client) answers b ≡ some b
  unfolding submit_turn take_batch
  empty_turn answers b e = ap (take_batch hash proof_generation (some client) answers b) e

  turn_step :
      (answers : Answers) (more : List Answers) (b b' : Bridge)
      → submit_turn hash proof_generation (some client) answers b ≡ some b'
      → submit_batches_to_l1 hash proof_generation (some client) (answers ∷ more) b
        ≡ submit_batches_to_l1 hash proof_generation (some client) more b'
  unfolding submit_batches_to_l1
  turn_step answers more b b' e = rw (submit_batches_to_l1, e)

  nothing : (r : ZkRollup) → Anchors r r []
  nothing r = record { counted = omega arith; kept = λ number h. h; anchored = tt }

  -- The contract is deployed at the client's address, and the node and the chain answer at every
  -- turn. The numbers of the batches in the queue follow each other, from the one that the contract
  -- waits for, all below 2 ^ 63, and their transactions can be hashed. Then as many turns as there
  -- are batches, or more, empty the queue, and the contract has every batch as verified and waits for
  -- the number after the last.
  pub submit_batches_to_l1-Anchors :
      (answers : List Answers) (b : Bridge) (r : ZkRollup) (batches : List Batch)
      → b.sequencer.l1_submit ≡ batches
      → lookup at b.chain.rollups ≡ some r
      → All IsGood answers
      → length batches ≤ length answers
      → AreConsecutive (r.current_batch_number + 1) batches
      → All IsHashable batches
      → (b' : Bridge) × (r' : ZkRollup) × (submit_batches_to_l1 hash proof_generation
            (some client)
            answers
            b
          ≡ some b')
        × (b'.sequencer.l1_submit ≡ [])
        × (lookup at b'.chain.rollups ≡ some r')
        × Anchors r r' batches
  unfolding submit_batches_to_l1
  submit_batches_to_l1-Anchors [] b r [] e found good enough numbers hashable =
      (b, r, refl, e, found, nothing r)
  submit_batches_to_l1-Anchors [] b r (batch ∷ rest) e found good enough numbers hashable =
      absurd (omega (arith, enough))
  submit_batches_to_l1-Anchors (answers ∷ more) b r [] e found good enough numbers hashable =
      rw (turn_step answers more b b (empty_turn answers b e))
        (submit_batches_to_l1-Anchors more b r [] e found good.1 (omega arith) tt tt)
  submit_batches_to_l1-Anchors (answers ∷ more) b r (batch ∷ rest) e found good enough numbers
        hashable =
      let number : number_sent batch ≡ batch.batch_number =
        number_sent_lem batch (rw (← numbers.0) at numbers.1) in
      let stored : ZkRollup = store_batch answers.now batch.batch_number batch.state_root true r in
      let mined : lookup at
            (mine answers.now at (number_sent batch) batch.state_root b.chain).rollups
          ≡ some stored =
        mine_lem answers.now (number_sent batch) at batch.state_root b.chain r found
        ∙ ap some (
            ap (λ n. accept_batch answers.now n batch.state_root r) number
            ∙ accept_next answers.now batch.batch_number batch.state_root r numbers.0) in
      let (b', r', run, empty, found', anchors) =
        submit_batches_to_l1-Anchors more
          (record {
            sequencer = record b.sequencer { l1_submit = rest };
            chain = mine answers.now at (number_sent batch) batch.state_root b.chain;
          })
          stored rest refl mined good.1 (omega (arith, enough))
          (unfold store_batch in rw (numbers.0) numbers.2) hashable.1 in
      (
        b',
        r',
        turn_step answers more b _
              (good_turn answers b.sequencer b.chain batch rest e good.0 hashable.0)
            ∙ run,
        empty,
        found',
        Anchors-cons answers.now r r' batch rest numbers.0 anchors,
      )
