-- ===== src/Sequencer.antt =====
-- pkg/sequencer/sequencer.go: the sequencer's state, and how a transaction gets into its pool. The
-- locks make a handler one step, so they do not appear; nor do the log, the prover and the context.
pub mod Batching
pub mod Api
pub mod Admission
pub mod Validation
pub mod Pool
pub mod Finality
pub mod Invariant
pub mod Machine
pub mod Wiring
pub mod Startup
use zkrollup_go.Base.{
  ℕ, ◌+◌, List, [], ◌∷◌, ◌++◌, Option, none, some, Bool, true, false, not, ◌&&◌, ◌||◌, leb, nat_eqb,
  if◌then◌else◌, length, String,
}
use zkrollup_go.Base.Int.{ℤ, pos, ltb_ℤ, is_zero_ℤ}
use zkrollup_go.Outcome.{
  M, Outcome, ok, err, panic, pure, gets, or_panic, raise_if, modify, ◌>>=◌, ◌>>◌, invalid_nonce,
  insufficient_balance, gas_required, bytecode_required,
}
use zkrollup_go.State.{
  Address, Pointer, Account, Transaction, Batch, State, deploy_type, call_type, new_state,
  get_account, store, set_account,
}
use zkrollup_go.State.Accounts.{create_account}
use zkrollup_go.Consensus.Pbft.{Pbft, new_pbft}

-- `received` counts the batches that were taken from the consensus module's channel, and
-- `l1_submit` holds what waits in the channel `l1SubmitChan`.
pub record Sequencer : Type 0 where
  pub batch_size : ℕ
  pub state : State
  pub tx_pool : List Transaction
  pub current_batch : Option Batch
  pub batch_in_progress : Bool
  pub l1_enabled : Bool
  pub l1_submit : List Batch
  pub consensus : Pbft
  pub received : ℕ
  pub is_leader : Bool
  pub peer_count : ℕ

-- `NewSequencer`, once the node and the prover exist; `l1_enabled` says that the L1 client does.
unfoldable pub new_sequencer : ℕ → Bool → String → Bool → Sequencer
new_sequencer batch_size l1_enabled node_id is_leader = record {
  batch_size = batch_size;
  state = new_state;
  tx_pool = [];
  current_batch = none;
  batch_in_progress = false;
  l1_enabled = l1_enabled;
  l1_submit = [];
  consensus = new_pbft node_id is_leader;
  received = 0;
  is_leader = is_leader;
  peer_count = 1;
}

-- A method of the state.
unfoldable pub on_state : {A : Type 0} → M State A → M Sequencer A
on_state run q = elim (run q.state) [
  | ok a s ↦ ok a (record q { state = s })
  | err e s ↦ err e (record q { state = s })
  | panic ↦ panic
]

-- `acc.Balance == nil || acc.Balance.Sign() == 0`
abbrev pub is_broke : Option ℤ → Bool
is_broke none = true
is_broke (some balance) = is_zero_ℤ balance

unfoldable pub fund_found : Address → Option Pointer → M State Pointer
fund_found from none s =
    ok s.next (create_account (record { address = from; balance = some (pos 1000); nonce = 0 }) s)
fund_found from (some p) s = ok p (
    if is_broke (s.heap p).balance
    then set_account p (store p (record (s.heap p) { balance = some (pos 1000) }) s)
    else s)

-- The sender's account, which gets a test balance where it has none.
unfoldable pub fund_sender : Address → M State Pointer
unfolding fund_found
fund_sender from s = fund_found from (get_account from s) s

-- `err != nil || recipient == nil || recipient.Balance == nil`
abbrev is_unopened : Option Pointer → State → Bool
is_unopened none s = true
is_unopened (some p) s = elim (s.heap p).balance [ none ↦ true | some _ ↦ false ]

-- The recipient's account, which is made where there is none.
unfoldable pub open_recipient : Address → M State (Unit {0})
open_recipient to = modify (λ s.
    if is_unopened (get_account to s) s
    then create_account (record { address = to; balance = some (pos 0); nonce = 0 }) s
    else s)

-- the basic validation
unfoldable pub check_sender : Pointer → Transaction → M State (Unit {0})
check_sender acc tx = do
  nonce ← gets (λ s. (s.heap acc).nonce)
  raise_if (leb tx.nonce nonce) invalid_nonce
  balance ← (λ s. or_panic (s.heap acc).balance s)
  amount ← or_panic tx.amount
  raise_if (ltb_ℤ balance amount) insufficient_balance

-- `AddTransaction` up to the pool
unfoldable pub validate : Transaction → M State (Unit {0})
validate tx = do acc ← fund_sender tx.from; open_recipient tx.to; check_sender acc tx

-- `AddTransaction`
unfoldable pub add_transaction : Transaction → M Sequencer (Unit {0})
add_transaction tx = do
  on_state (validate tx)
  modify (λ q. record q { tx_pool = q.tx_pool ++ tx ∷ [] })

-- the types that the virtual machine runs
abbrev needs_gas : Transaction → Bool
needs_gas tx = nat_eqb tx.tx_type deploy_type || nat_eqb tx.tx_type call_type

-- `handleTransaction`
unfoldable pub handle_transaction : Transaction → M Sequencer (Unit {0})
handle_transaction tx = do
  raise_if (needs_gas tx && nat_eqb tx.gas 0) gas_required
  raise_if (nat_eqb tx.tx_type deploy_type && nat_eqb (length tx.payload) 0) bytecode_required
  add_transaction tx
