-- ===== src/Sequencer/Api.antt =====
-- pkg/sequencer/api.go: what the sequencer answers about its state. An answer is the account's
-- value, not its place in the heap.
use zkrollup_go.Base.{ℕ, List, [], none, some, Bool, nat_eqb, if◌then◌else◌}
use zkrollup_go.Base.Int.{pos}
use zkrollup_go.State as Rollup
use zkrollup_go.State.{Address, Hash, Account, Pointer}
use zkrollup_go.Sequencer.{Sequencer}

-- `isZeroAddress`
unfoldable pub is_zero_address : Address → Bool
is_zero_address address = nat_eqb address 0

-- the answer for an account that there is not
abbrev pub empty_account : Address → Account
empty_account address = record { address = address; balance = some (pos 0); nonce = 0 }

-- `Sequencer.GetAccount`
unfoldable pub query_account : Address → Sequencer → Account
unfolding is_zero_address
query_account address q =
    if is_zero_address address
    then empty_account address
    else elim (Rollup.get_account address q.state) [
      | none ↦ empty_account address
      | some p ↦ q.state.heap p
    ]

-- `Sequencer.GetCode`
unfoldable pub query_code : Address → Sequencer → List ℕ
unfolding is_zero_address
query_code address q =
    if is_zero_address address
    then []
    else elim (Rollup.get_code address q.state) [ none ↦ [] | some code ↦ code ]

-- `Sequencer.GetStorage`
unfoldable pub query_storage : Address → Hash → Sequencer → Hash
unfolding is_zero_address
query_storage address key q =
    if is_zero_address address
    then 0
    else elim (Rollup.get_storage address key q.state) [ none ↦ 0 | some value ↦ value ]
