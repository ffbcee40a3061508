-- ===== src/Rpc/Queries.antt =====
-- pkg/rpc/server.go: what the server answers about an account.
use zkrollup_go.Base.{
  ◌≡◌, ◌≢◌, refl, inl, inr, ℕ, List, ◌∷◌, Option, none, some, true, false, nat_eqb, Option-cases,
  arith,
}
use zkrollup_go.Base.Int.{ℤ, pos}
use zkrollup_go.State.{Address, Pointer, Account, get_account}
use zkrollup_go.State.Accounts.{account_at, account_at_known, account_at_missing}
use zkrollup_go.State.Supply.{funds, funds_of, nonce_at}
use zkrollup_go.Hashing.{parse_amount, parse_digits, of_digits}
use zkrollup_go.Hashing.Decimal.{parse_amount-to_string_ℤ}
use zkrollup_go.Sequencer.{Sequencer}
use zkrollup_go.Sequencer.Api.{query_account, is_zero_address, empty_account}
use zkrollup_go.Rpc.Params.{Library, has_prefix}
use zkrollup_go.Rpc.{
  JsonRpcRequest, result, nonce_result, balance_result, with_address, handle_get_nonce,
  handle_get_balance, shown,
}

parse_amount-shown :
    (balance : Option ℤ)
    → parse_amount (shown balance) ≡ some (elim balance [ none ↦ pos 0 | some value ↦ value ])
parse_amount-shown none = unfold parse_amount parse_digits of_digits in refl
parse_amount-shown (some value) = parse_amount-to_string_ℤ value

shown-funds : (account : Account) → parse_amount (shown account.balance) ≡ some (funds account)
shown-funds account = elim (Option-cases account.balance) [
  | inl nil ↦ rw (nil) (parse_amount-shown none)
  | inr (value, e) ↦ rw (e) (parse_amount-shown (some value))
]

query_account_missing :
    (address : Address) (q : Sequencer)
    → address ≢ 0
    → get_account address q.state ≡ none
    → query_account address q ≡ empty_account address
unfolding query_account is_zero_address
query_account_missing address q h missing =
    let other : nat_eqb address 0 ≡ false = ground arith in rw (query_account, other, missing)

query_account_known :
    (address : Address) (q : Sequencer) (p : Pointer)
    → address ≢ 0
    → get_account address q.state ≡ some p
    → query_account address q ≡ q.state.heap p
unfolding query_account is_zero_address
query_account_known address q p h known =
    let other : nat_eqb address 0 ≡ false = ground arith in rw (query_account, other, known)

-- The account that is answered for an address other than zero agrees with the abstract view.
query_account_lem :
    (address : Address) (q : Sequencer)
    → address ≢ 0
    → ((query_account address q).nonce ≡ nonce_at (account_at q.state address))
      × (parse_amount (shown (query_account address q).balance)
          ≡ some (funds_of (account_at q.state address)))
query_account_lem address q h = elim (Option-cases (get_account address q.state)) [
  | inl missing ↦
      rw (query_account_missing address q h missing, account_at_missing q.state address missing)
        (refl, parse_amount-shown (some (pos 0)))
  | inr (p, known) ↦
      rw (query_account_known address q p h known, account_at_known q.state address p known)
        (refl, shown-funds (q.state.heap p))
]

-- For a request whose first parameter is an address other than zero, the server answers with the
-- nonce of the account, and with a balance that ParseAmount reads as the account's, where a missing
-- account has nonce and balance 0.
pub queries_report :
    {F : Type 0} (lib : Library F) (req : JsonRpcRequest) (q : Sequencer) (addr : List ℕ)
    (more : List (List ℕ))
    → lib.strings req.params ≡ some (addr ∷ more)
    → has_prefix addr ≡ true
    → lib.hex_to_address addr ≢ 0
    → let account = account_at q.state (lib.hex_to_address addr) in
      (handle_get_nonce lib req q ≡ result req.id (nonce_result (nonce_at account)))
      × ((text : List ℕ) × (handle_get_balance lib req q ≡ result req.id (balance_result text))
          × (parse_amount text ≡ some (funds_of account)))
unfolding handle_get_nonce handle_get_balance with_address
queries_report lib req q addr more strings prefix other =
    let address = lib.hex_to_address addr in
    let (same_nonce, same_balance) = query_account_lem address q other in
    (
      rw (with_address, strings, prefix, same_nonce),
      (shown (query_account address q).balance, rw (with_address, strings, prefix), same_balance),
    )
