-- ===== src/Tests/Contracts.antt =====
-- The theorems about the contracts on Ethereum at concrete inputs.
use zkrollup_go.Base.{
  ◌≡◌, refl, ℕ, List, [], ◌∷◌, Option, none, some, true, false, length, replicate, lookup, nat_eq,
  arith, inr,
}
use zkrollup_go.Base.Int.{pos}
use zkrollup_go.State.{Transaction}
use zkrollup_go.L1.{
  Client, Answers, ZkRollup, new_rollup, hash_all, submit_batch, get_transact_opts, mine,
  accept_batch,
}
use zkrollup_go.L1.Submission.{
  Bridge, submit_batches_to_l1, submit_turn, take_batch, submit_batch_to_l1,
}
use zkrollup_go.L1.Numbers.{Anchors}
use zkrollup_go.L1.Anchoring.{submit_batches_to_l1-Anchors}
use zkrollup_go.L1.Gaps.{submit_batches_to_l1_missed}
use zkrollup_go.Onchain.{CrsManager, new_crs_manager, register, participants_of, is_registered}
use zkrollup_go.Onchain.Orchestrator.{Curve, Luck, step, run_steps}
use zkrollup_go.Onchain.Runs.{IsStuck, deployed, registers, turns, Orchestrated-IsStuck}
use zkrollup_go.Onchain.Points.{IsGroup}
use zkrollup_go.Onchain.Completion.{Completes, run_steps-Completes}
use zkrollup_go.Tests.{payment}
use zkrollup_go.Tests.Agreement.{block}
use zkrollup_go.Tests.Intake.{boot_state}

abbrev good : Answers
good = record {
  pending_nonce = some 3;
  gas_price = some 20;
  has_transactor = true;
  sends = true;
  deploys = none;
  queries = true;
  now = 100;
}

abbrev client : Client
client = record { contract = some 9; address = 1; chain_id = pos 1337 }

-- the hash of a transaction is its data
abbrev digest : Transaction → Option (List ℕ)
digest tx = some tx.payload

-- a contract that waits for the batch 1, and a sequencer with that batch in its queue
abbrev bridge : Bridge
bridge = record {
  sequencer = record boot_state {
    l1_submit = record block { batch_number = 1; transactions = payment ∷ [] } ∷ [];
  };
  chain = record { rollups = (9, new_rollup) ∷ [] };
}

submit_batches_to_l1-Anchors_example :
    (b' : Bridge) × (r' : ZkRollup) × (submit_batches_to_l1 digest false
        (some client)
        (good ∷ [])
        bridge
      ≡ some b')
    × (b'.sequencer.l1_submit ≡ [])
    × (lookup 9 b'.chain.rollups ≡ some r')
    × Anchors new_rollup r' (record block { batch_number = 1; transactions = payment ∷ [] } ∷ [])
unfolding hash_all
submit_batches_to_l1-Anchors_example =
    submit_batches_to_l1-Anchors digest false client 9 refl (good ∷ []) bridge new_rollup
      (record block { batch_number = 1; transactions = payment ∷ [] } ∷ []) refl refl
      ((λ e. cc, λ e. cc, refl, refl), tt) (omega arith) (refl, omega arith, tt) (λ e. cc, tt)

-- the same with the batch 2
abbrev late : Bridge
late = record bridge {
  sequencer = record boot_state { l1_submit = record block { batch_number = 2 } ∷ [] };
}

submit_batches_to_l1_missed_example : lookup 9 late.chain.rollups ≡ some new_rollup
unfolding submit_batches_to_l1 submit_turn take_batch submit_batch_to_l1 submit_batch
    get_transact_opts hash_all mine accept_batch
submit_batches_to_l1_missed_example =
    submit_batches_to_l1_missed 9 new_rollup digest false (some client) (good ∷ []) late
      (record late { sequencer = record boot_state { l1_submit = [] } }) refl
      ((omega arith, inr (omega arith)), tt) refl

-- two orchestrators, and a curve on which every 32 bytes are a point and every scalar is one
abbrev luck : Luck
luck = record {
  answers_idx = true;
  answers_participants = true;
  answers_crs = true;
  entropy = some (1 ∷ []);
  sends_contribution = true;
  answers_last = true;
  sends_finalization = true;
  now = 200;
}

abbrev curve : Curve
curve = record { reduce = λ n. n; scale = λ scalar point. some point; scale_zero = λ scalar. [] }

abbrev IsBytes32 : List ℕ → Type 0
IsBytes32 point = length point ≡ 32

group : IsGroup curve IsBytes32
group = record { sized = λ point h. h; closed = λ scalar point h. (point, refl, h) }

-- a round with two participants in which a first CRS was put on the contract
abbrev round : CrsManager
round = record (new_crs_manager 100 60 3) {
  registered_participants = (1, 5 ∷ 6 ∷ []) ∷ [];
  current_crs = replicate 32 1;
  ceremony_active = true;
}

run_steps-Completes_example :
    Completes curve IsBytes32 group 1
      (omega arith)
      round
      (run_steps curve ((5, luck) ∷ (6, luck) ∷ []) round)
unfolding new_crs_manager participants_of is_registered
run_steps-Completes_example =
    run_steps-Completes curve IsBytes32 group 1 (omega arith) ((6, luck) ∷ []) 5 luck [] round
      (record {
        listed = refl;
        reached = refl;
        active = refl;
        points = (replicate 32 1 ∷ [], refl, (refl, tt), refl);
        fresh = refl;
      })
      (refl, (refl, tt)) (refl, refl, refl, λ e. cc, refl, refl, refl)
      ((refl, refl, refl, λ e. cc, refl, refl, refl), tt)

-- a new contract with one participant
abbrev opened : CrsManager
opened = record (new_crs_manager 100 60 3) {
  registered_participants = (1, 5 ∷ []) ∷ [];
  ceremony_active = true;
}

Orchestrated-IsStuck_example : IsStuck (step curve luck 5 opened)
unfolding register new_crs_manager participants_of is_registered
Orchestrated-IsStuck_example =
    Orchestrated-IsStuck curve (step curve luck 5 opened)
      (turns luck 5 (registers 120 5 (deployed 100 60 3) refl))
