-- ===== src/State/Types.antt =====
-- The data of pkg/state/state.go. An address [20]byte and a hash [32]byte are the numbers that
-- their bytes spell; a `*big.Int` that may be nil is an `Option ℤ`; a `*Account` is a number, the
-- place of the object in the heap of `State`.
use zkrollup_go.Base.{ℕ, ◌^◌, ◌%◌, List, Map, Option}
use zkrollup_go.Base.Int.{ℤ}

abbrev pub Address : Type 0
Address = ℕ

abbrev pub Hash : Type 0
Hash = ℕ

abbrev pub Pointer : Type 0
Pointer = ℕ

abbrev pub u64 : ℕ → ℕ
u64 n = n % 2 ^ 64

abbrev pub transfer_type : ℕ
transfer_type = 0

abbrev pub deploy_type : ℕ
deploy_type = 1

abbrev pub call_type : ℕ
call_type = 2

pub record Transaction : Type 0 where
  pub tx_type : ℕ
  pub from : Address
  pub to : Address
  pub amount : Option ℤ
  pub nonce : ℕ
  pub payload : List ℕ
  pub gas : ℕ
  pub signature : List ℕ

pub record Account : Type 0 where
  pub address : Address
  pub balance : Option ℤ
  pub nonce : ℕ

pub record Batch : Type 0 where
  pub batch_number : ℕ
  pub transactions : List Transaction
  pub state_root : Hash
  pub timestamp : ℕ
  pub proof : List ℕ

-- `accounts` maps to pointers, and `heap` holds the objects; `next` is the first free place.
pub record State : Type 0 where
  pub accounts : Map Address Pointer
  pub heap : Pointer → Account
  pub next : Pointer
  pub code : Map Address (List ℕ)
  pub storage : Map Address (Map Hash Hash)
  pub batches : List Batch
  pub batch_number : ℕ
