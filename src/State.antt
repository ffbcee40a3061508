-- ===== src/State.antt =====
-- pkg/state/state.go: the accounts, code, storage and batches of the rollup. Each method is a
-- function of the state; the lock makes a method one step, so it does not appear.
mod Types
pub mod Accounts
pub mod Supply
pub mod Root
pub use Types.*
use Prim.Native.Nat.{bit_xor}
use zkrollup_go.Base.{
  ℕ, zero, suc, ◌+◌, ◌%◌, List, [], ◌∷◌, ◌++◌, Option, none, some, Map, lookup, insert, nat_eq,
  nat_eqb, if◌then◌else◌, set, get_or, replicate,
}
use zkrollup_go.Base.Int.{ℤ, pos, abs}
use zkrollup_go.Base.Bytes.{be_bytes, nat_bytes}

abbrev pub new_state : State
new_state = record {
  accounts = [];
  heap = λ p. record { address = 0; balance = none; nonce = 0 };
  next = 0;
  code = [];
  storage = [];
  batches = [];
  batch_number = 0;
}

-- `none` is `ErrAccountNotFound`.
unfoldable pub get_account : Address → State → Option Pointer
get_account address s = lookup address s.accounts

-- Writes through a `*Account`.
unfoldable pub store : Pointer → Account → State → State
store p account s = record s { heap = λ q. if nat_eqb q p then account else s.heap q }

-- `&state.Account{...}`
unfoldable pub new_account : Account → State → State
unfolding store
new_account account s = record (store s.next account s) { next = s.next + 1 }

unfoldable pub set_account : Pointer → State → State
set_account p s = record s { accounts = insert (s.heap p).address p s.accounts }

-- `none` is `ErrCodeNotFound`.
unfoldable pub get_code : Address → State → Option (List ℕ)
get_code address s = lookup address s.code

unfoldable pub set_code : Address → List ℕ → State → State
set_code address code s = record s { code = insert address code s.code }

-- `none` is `ErrStorageNotFound`.
unfoldable pub get_storage : Address → Hash → State → Option Hash
get_storage address key s = elim (lookup address s.storage) [
  | none ↦ none
  | some address_storage ↦ lookup key address_storage
]

abbrev pub or_empty : Option (Map Hash Hash) → Map Hash Hash
or_empty none = []
or_empty (some m) = m

unfoldable pub set_storage : Address → Hash → Hash → State → State
set_storage address key value s = record s {
  storage = insert address (insert key value (or_empty (lookup address s.storage))) s.storage;
}

xor_at : ℕ → ℕ → List ℕ → List ℕ
xor_at i b root = set root i (bit_xor (get_or root i 0) b)

-- `for i, b := range bytes { stateRoot[(i+offset)%32] ^= b }`, from index i on
xor_bytes : ℕ → ℕ → List ℕ → List ℕ → List ℕ
unfolding xor_at
xor_bytes offset i [] root = root
xor_bytes offset i (b ∷ bs) root = xor_bytes offset (suc i) bs (xor_at ((i + offset) % 32) b root)

xor_balance : Option ℤ → List ℕ → List ℕ
unfolding xor_bytes
xor_balance none root = root
xor_balance (some balance) root = xor_bytes 16 0 (nat_bytes (abs balance)) root

-- the body of the loop over the accounts
xor_account : Address → Account → List ℕ → List ℕ
unfolding xor_balance
xor_account address account root =
    xor_at (account.nonce % 32) (account.nonce % 256)
      (xor_balance account.balance (xor_bytes 0 0 (be_bytes 20 address) root))

root_of : (Pointer → Account) → Map Address Pointer → List ℕ → List ℕ
unfolding xor_account
root_of heap [] root = root
root_of heap ((address, p) ∷ rest) root = root_of heap rest (xor_account address (heap p) root)

-- The 32 bytes of the root, the accounts taken in the order of the list. (Go's order is random.)
unfoldable pub get_state_root : State → List ℕ
unfolding root_of
get_state_root s = root_of s.heap s.accounts (replicate 32 0)

unfoldable pub get_batch_number : State → ℕ
get_batch_number s = s.batch_number

-- The batch is renumbered, so the caller's object comes back beside the state.
unfoldable pub add_batch : Batch → State → Batch × State
add_batch batch s =
    let numbered = record batch { batch_number = s.batch_number } in
    (
      numbered,
      record s { batches = s.batches ++ numbered ∷ []; batch_number = u64 (s.batch_number + 1) },
    )
