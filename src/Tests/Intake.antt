-- ===== src/Tests/Intake.antt =====
-- The theorems about the sequencer at concrete inputs.
use zkrollup_go.Base.{◌≡◌, refl, none, [], ◌∷◌, arith, false, true}
use zkrollup_go.Base.Int.{pos}
use zkrollup_go.Outcome.{ok, err, panic}
use zkrollup_go.State.{get_account, store, set_account, new_account}
use zkrollup_go.State.Accounts.{create_account}
use zkrollup_go.Sequencer.{
  add_transaction, on_state, validate, fund_sender, fund_found, open_recipient, check_sender,
}
use zkrollup_go.Sequencer.Invariant.{IsSound}
use zkrollup_go.Sequencer.Machine.{Running-IsSound, transact, boot}
use zkrollup_go.State.{Batch}
use zkrollup_go.Sequencer.{Sequencer, new_sequencer, handle_transaction}
use zkrollup_go.Sequencer.Batching.{try_create_batch, process_finalized_batch}
use zkrollup_go.Sequencer.Validation.{Handles, handle_transaction-Handles}
use zkrollup_go.Sequencer.Pool.{Creates, try_create_batch-Creates}
use zkrollup_go.Sequencer.Finality.{Records, queue, numbered, process_finalized_batch-Records}
use zkrollup_go.Tests.{book, book-IsWellFormed, payment, deployment, call, address_of}
use zkrollup_go.Tests.Agreement.{net, block}

-- a leader with two transactions in its pool
abbrev pub leader : Sequencer
leader = record (new_sequencer 2 true "a" true) { state = book; tx_pool = payment ∷ call ∷ [] }

abbrev full_block : Batch
full_block = record block { transactions = payment ∷ deployment ∷ call ∷ [] }

handle_transaction-Handles_example :
    Handles payment (pos 30) leader (handle_transaction payment leader)
handle_transaction-Handles_example =
    handle_transaction-Handles leader payment (pos 30) book-IsWellFormed refl

try_create_batch-Creates_example : Creates net leader (try_create_batch net 7 leader)
try_create_batch-Creates_example = try_create_batch-Creates net 7 leader

process_finalized_batch-Records_example :
    (q' : Sequencer) × (process_finalized_batch address_of full_block leader ≡ ok tt q')
    × Records full_block leader.state q'.state
    × (q'.batch_in_progress ≡ false)
    × (q'.current_batch ≡ none)
    × (q'.tx_pool ≡ leader.tx_pool)
    × (q'.l1_submit ≡ queue (numbered full_block leader.state) leader)
process_finalized_batch-Records_example =
    process_finalized_batch-Records address_of full_block (omega arith) leader book-IsWellFormed

abbrev pub boot_state : Sequencer
boot_state = new_sequencer 2 true "a" true

pub boot_state-IsSound : IsSound boot_state
unfolding new_sequencer
boot_state-IsSound = Running-IsSound net address_of boot_state (boot 2 true "a" true)

-- the state after the first transaction
abbrev paid : Sequencer
paid = elim (handle_transaction payment boot_state) [
  | ok _ q ↦ q
  | err _ q ↦ q
  | panic ↦ boot_state
]

Running-IsSound_example : IsSound paid
unfolding handle_transaction add_transaction on_state validate fund_sender open_recipient
    check_sender create_account new_account set_account store get_account new_sequencer fund_found
Running-IsSound_example =
    Running-IsSound net address_of paid (transact payment (boot 2 true "a" true) (refl, λ e. cc))
