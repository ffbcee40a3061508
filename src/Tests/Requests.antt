-- ===== src/Tests/Requests.antt =====
-- The theorems about the texts, the hashes and the requests of clients at concrete inputs.
use zkrollup_go.Base.{
  ◌≡◌, ◌≢◌, refl, List, length, nat_eqb, if◌then◌else◌, ◌%◌, false, ◌^◌, some, [], ◌∷◌, ℕ, arith,
}
use zkrollup_go.Base.Int.{pos, negsuc}
use zkrollup_go.State.{Transaction}
use zkrollup_go.Hashing.{to_string_ℤ, parse_amount, hashed_bytes, decimal}
use zkrollup_go.Hashing.Decimal.{parse_amount-to_string_ℤ}
use zkrollup_go.Hashing.Separation.{IsSized, SameFields, hashed_bytes_separate}
use zkrollup_go.Outcome.{ok}
use zkrollup_go.State.Accounts.{account_at}
use zkrollup_go.State.Supply.{funds_of, nonce_at}
use zkrollup_go.Sequencer.{Sequencer}
use zkrollup_go.Rpc.Params.{Fields, Library, text, float, has_prefix}
use zkrollup_go.Rpc.{
  JsonRpcRequest, Response, result, nonce_result, balance_result, handle_rpc, handle_get_nonce,
  handle_get_balance, handle_send_transaction,
}
use zkrollup_go.Rpc.Queries.{queries_report}
use zkrollup_go.Rpc.Sending.{Sends, handle_send_transaction-Sends}
use zkrollup_go.Rpc.Answers.{IsFor, Answered, Reads, handle_rpc_answers}
use zkrollup_go.Tests.Intake.{boot_state, boot_state-IsSound, leader}
use zkrollup_go.Tests.{payment, book, book-IsWellFormed}

parse_amount-to_string_ℤ_example : parse_amount (b'-' ∷ b'1' ∷ b'2' ∷ b'0' ∷ []) ≡ some (negsuc 119)
unfolding to_string_ℤ decimal
parse_amount-to_string_ℤ_example = parse_amount-to_string_ℤ (negsuc 119)

-- the payment of 30 as a debt of 30, with another signature
abbrev debt : Transaction
debt = record payment { amount = some (negsuc 29); signature = 1 ∷ [] }

payment-IsSized : IsSized payment
payment-IsSized = omega arith

hashed_bytes_separate_example : SameFields payment (pos 30) debt (negsuc 29)
unfolding hashed_bytes
hashed_bytes_separate_example =
    hashed_bytes_separate payment debt (pos 30) (negsuc 29) payment-IsSized payment-IsSized refl
      refl refl refl

-- the fields of the payment, as a client sends them
abbrev fields : Fields ℕ
fields =
    ("from", text (b'0' ∷ b'x' ∷ b'1' ∷ []))
    ∷ ("to", text (b'0' ∷ b'x' ∷ b'2' ∷ []))
    ∷ ("amount", text (b'3' ∷ b'0' ∷ []))
    ∷ ("nonce", float 5)
    ∷ ("gas", float 0)
    ∷ ("data", text [])
    ∷ ("signature", text [])
    ∷ ("type", float 0)
    ∷ []

-- parameters of requests that are read as the account 1 and as the payment
abbrev library : Library ℕ
library = record {
  strings = λ params. some ((b'0' ∷ b'x' ∷ b'1' ∷ []) ∷ []);
  objects = λ params. some (fields ∷ []);
  to_uint8 = λ n. n % 256;
  to_uint64 = λ n. n % 2 ^ 64;
  hex_to_address = λ digits. if nat_eqb (length digits) 3 then 1 else 2;
  from_hex = λ digits. digits;
  keccak = λ bytes. bytes;
}

abbrev request : JsonRpcRequest
request = record { method = "rollup_sendTransaction"; params = []; id = b'7' ∷ [] }

handle_rpc_answers_example :
    Answered (IsFor request.id) boot_state (handle_rpc library "POST" (false, request) boot_state)
    × (request.method ≢ "rollup_sendTransaction"
        → Reads library request boot_state (handle_rpc library "POST" (false, request) boot_state))
handle_rpc_answers_example = handle_rpc_answers library request boot_state false boot_state-IsSound

handle_send_transaction-Sends_example :
    (response : Response) × (q' : Sequencer) × (handle_send_transaction library request leader
      ≡ ok response q')
    × Sends library request leader fields response q'
handle_send_transaction-Sends_example =
    handle_send_transaction-Sends library request leader fields [] refl book-IsWellFormed

queries_report_example :
    (handle_get_nonce library request leader
      ≡ result request.id (nonce_result (nonce_at (account_at book 1))))
    × ((digits : List ℕ) × (handle_get_balance library request leader
          ≡ result request.id (balance_result digits))
        × (parse_amount digits ≡ some (funds_of (account_at book 1))))
unfolding has_prefix
queries_report_example =
    queries_report library request leader (b'0' ∷ b'x' ∷ b'1' ∷ []) [] refl refl (omega arith)
