-- ===== src/Evm.antt =====
-- pkg/evm/evm.go: the simplified virtual machine. `StateDB` has one implementation, the adapter,
-- so its methods are called directly. `crypto.CreateAddress` of go-ethereum is a parameter.
pub mod Adapter
pub mod Supply
pub mod Deploy
use Prim.Native.String.{String}
use Prim.Native.Char.{code}
use zkrollup_go.Base.{
  ℕ, ◌+◌, ◌-◌, ◌/◌, List, [], ◌∷◌, Bool, true, false, Option, some, none, if◌then◌else◌,
}
use zkrollup_go.Base.Int.{ℤ, pos, ltb_ℤ, is_zero_ℤ}
use zkrollup_go.Outcome.{
  M, ok, err, panic, pure, gets, or_panic, raise_if, modify, update_or_panic, ◌>>=◌, ◌>>◌,
  insufficient_balance, contract_not_found,
}
use zkrollup_go.State.{Address, u64}
use zkrollup_go.Evm.Adapter.{
  StateAdapter, get_balance, get_nonce, get_code, set_nonce, set_pending_code, sub_balance,
  add_balance, apply_changes,
}

abbrev is_empty : List ℕ → Bool
is_empty [] = true
is_empty (b ∷ bs) = false

-- The bytes of a text in ASCII.
abbrev pub ascii : String → List ℕ
ascii String.[] = []
ascii (String.◌∷◌ c s) = code c ∷ ascii s

-- the zero case is a fresh 0
abbrev normal : ℤ → ℤ
normal value = if is_zero_ℤ value then pos 0 else value

-- Moves the value from the caller to the contract.
unfoldable pub transfer_value : Address → Address → ℤ → M StateAdapter (Unit {0})
transfer_value caller contract value = do
  update_or_panic (sub_balance caller (normal value))
  update_or_panic (add_balance contract (normal value))

unfoldable pub execute_contract :
    Address → Address → Option ℤ → ℕ → List ℕ → M StateAdapter (List ℕ × ℕ)
execute_contract caller contract value gas input = do
  contract_code ← gets (get_code contract)
  raise_if (is_empty contract_code) contract_not_found
  caller_balance ← (λ a. or_panic (get_balance caller a) a)
  amount ← or_panic value
  raise_if (ltb_ℤ caller_balance amount) insufficient_balance
  transfer_value caller contract amount
  modify apply_changes
  pure (ascii "contract executed", gas - gas / 2)

module _ (create_address : Address → ℕ → Address) where
  unfoldable pub deploy_contract : Address → Option ℤ → ℕ → List ℕ → M StateAdapter (Address × ℕ)
  deploy_contract caller value gas contract_code = do
    caller_balance ← (λ a. or_panic (get_balance caller a) a)
    amount ← or_panic value
    raise_if (ltb_ℤ caller_balance amount) insufficient_balance
    nonce ← gets (get_nonce caller)
    let contract_addr = create_address caller nonce
    transfer_value caller contract_addr amount
    modify (set_pending_code contract_addr contract_code)
    modify (set_nonce caller (u64 (nonce + 1)))
    modify apply_changes
    pure (contract_addr, gas - gas / 2)
