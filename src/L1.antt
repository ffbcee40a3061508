-- ===== src/L1.antt =====
-- pkg/l1/client.go and contracts/ZKRollup.sol: the client of the rollup contract on Ethereum, and the
-- contract. What the node, the key and the chain answer is a parameter of each call. A transaction that
-- is sent is mined at once; that a contract reverts is no error for the client, which sets the gas
-- limit itself and does not wait for the receipt.
pub mod Submission
pub mod Numbers
pub mod Anchoring
pub mod Gaps
use zkrollup_go.Base.{
  ℕ, ◌+◌, ◌-◌, ◌^◌, List, [], ◌∷◌, Option, none, some, String, Map, lookup, insert, Bool, true,
  false, not, ◌&&◌, ltb, nat_eqb, nat_eq, if◌then◌else◌, string_eq, ◌==◌,
}
use zkrollup_go.Base.Int.{ℤ, pos, negsuc}
use zkrollup_go.Outcome.{
  M, Outcome, ok, err, panic, pure, gets, raise_if, or_raise, or_panic, modify, ◌>>=◌, ◌>>◌,
  dial_failed, invalid_key, contract_failed, no_contract, nonce_failed, gas_price_failed,
  transactor_failed, deploy_failed, submit_failed, verify_failed,
}
use zkrollup_go.State.{Address, Hash, Transaction, Batch}
use zkrollup_go.Hashing.{to_int64}

-- `ZKRollup.Batch`
pub record Stored : Type 0 where
  pub state_root : Hash
  pub verified : Bool
  pub timestamp : ℕ

-- The storage of the contract ZKRollup.
pub record ZkRollup : Type 0 where
  pub batches : Map ℕ Stored
  pub current_batch_number : ℕ

-- its constructor
abbrev pub new_rollup : ZkRollup
new_rollup = record { batches = []; current_batch_number = 0 }

-- `verifyBatch` of the contract
unfoldable pub is_verified : ℕ → ZkRollup → Bool
is_verified number r = elim (lookup number r.batches) [ none ↦ false | some batch ↦ batch.verified ]

-- `_storeBatch`
unfoldable pub store_batch : ℕ → ℕ → Hash → Bool → ZkRollup → ZkRollup
store_batch now number state_root verified r = record r {
  batches =
      insert number (record { state_root = state_root; verified = verified; timestamp = now })
        r.batches;
  current_batch_number = number;
}

-- `submitBatch` of the contract at the time `now`; a transaction that reverts changes nothing.
unfoldable pub accept_batch : ℕ → ℕ → Hash → ZkRollup → ZkRollup
unfolding store_batch
accept_batch now number state_root r =
    if ltb 0 number && nat_eqb number (r.current_batch_number + 1)
    then store_batch now number state_root true r
    else r

-- a `*big.Int` as a `uint256` of a call
abbrev pub to_uint256 : ℤ → ℕ
to_uint256 (pos n) = n
to_uint256 (negsuc n) = 2 ^ 256 - n - 1

-- The contracts of this kind by their addresses.
pub record Chain : Type 0 where
  pub rollups : Map Address ZkRollup

pub record Config : Type 0 where
  pub ethereum_rpc : String
  pub chain_id : ℤ
  pub contract_address : String
  pub private_key : String

-- `contract` is nil where the configuration has no address.
pub record Client : Type 0 where
  pub contract : Option Address
  pub address : Address
  pub chain_id : ℤ

-- What the Ethereum node and go-ethereum answer while the client is made.
pub record Access : Type 0 where
  pub dials : String → Bool
  pub address_of_key : String → Option Address
  pub hex_to_address : String → Address
  pub loads : Address → Bool

-- What they answer during a call: the pending nonce, the gas price, whether there is a transactor for
-- the key, whether a transaction is sent, the address of a deployment, whether a query is answered,
-- and the time of the next block.
pub record Answers : Type 0 where
  pub pending_nonce : Option ℕ
  pub gas_price : Option ℕ
  pub has_transactor : Bool
  pub sends : Bool
  pub deploys : Option Address
  pub queries : Bool
  pub now : ℕ

-- `bind.TransactOpts`
pub record TransactOpts : Type 0 where
  pub nonce : ℤ
  pub value : ℕ
  pub gas_limit : ℕ
  pub gas_price : ℕ

-- `NewClient`
unfoldable pub new_client : Access → Config → M Unit Client
new_client access config = do
  raise_if (not (access.dials config.ethereum_rpc)) dial_failed
  address ← or_raise invalid_key (access.address_of_key config.private_key)
  contract ← (λ u.
      let at = access.hex_to_address config.contract_address in
      if config.contract_address == ""
      then ok none u
      else if access.loads at
      then ok (some at) u
      else err contract_failed u)
  pure (record { contract = contract; address = address; chain_id = config.chain_id })

-- `getTransactOpts`
unfoldable pub get_transact_opts : Answers → M Chain TransactOpts
get_transact_opts answers = do
  nonce ← or_raise nonce_failed answers.pending_nonce
  price ← or_raise gas_price_failed answers.gas_price
  raise_if (not answers.has_transactor) transactor_failed
  pure (record { nonce = to_int64 nonce; value = 0; gas_limit = 3000000; gas_price = price })

-- `DeployContract`
unfoldable pub deploy_rollup : Answers → M Chain Address
unfolding get_transact_opts
deploy_rollup answers = do
  get_transact_opts answers
  address ← or_raise deploy_failed answers.deploys
  modify (λ c. record c { rollups = insert address new_rollup c.rollups })
  pure address

-- The transaction on the chain, if there is a contract at the address.
unfoldable pub mine : ℕ → Address → ℕ → Hash → Chain → Chain
unfolding accept_batch
mine now at number state_root c = elim (lookup at c.rollups) [
  | none ↦ c
  | some r ↦ record c { rollups = insert at (accept_batch now number state_root r) c.rollups }
]

module _ (hash : Transaction → Option (List ℕ)) where
  -- The hashes of the transactions; one with a nil amount is dereferenced.
  unfoldable pub hash_all : List Transaction → Option (List (List ℕ))
  hash_all [] = some []
  hash_all (tx ∷ txs) = elim (hash tx) [
    | none ↦ none
    | some digest ↦ elim (hash_all txs) [ none ↦ none | some digests ↦ some (digest ∷ digests) ]
  ]

  -- `SubmitBatch`; the contract does not look at the hashes nor at the proof.
  unfoldable pub submit_batch : Client → Answers → Batch → List ℕ → M Chain (Unit {0})
  unfolding get_transact_opts hash_all mine
  submit_batch client answers batch proof = do
    at ← or_raise no_contract client.contract
    get_transact_opts answers
    or_panic (hash_all batch.transactions)
    raise_if (not answers.sends) submit_failed
    modify (mine answers.now at (to_uint256 (to_int64 batch.batch_number)) batch.state_root)

-- `VerifyBatch`
unfoldable pub verify_batch : Client → Answers → ℕ → M Chain Bool
unfolding is_verified
verify_batch client answers number = do
  at ← or_raise no_contract client.contract
  raise_if (not answers.queries) verify_failed
  gets (λ c. elim (lookup at c.rollups) [
    | none ↦ false
    | some r ↦ is_verified (to_uint256 (to_int64 number)) r
  ])
