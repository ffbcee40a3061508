-- ===== src/State/Supply.antt =====
-- The money in the rollup: the sum of all balances, and how the writes of accounts move it.
use zkrollup_go.Base.{
  ℕ, Option, ◌∙◌, ◌≡◌, refl, none, some, Map, lookup, insert, contains, nat_eq, false,
  HasUniqueKeys, [], ◌∷◌, All, arith,
}
use zkrollup_go.Base.Int.{ℤ, pos, ◌+ℤ◌, int_laws}
use zkrollup_go.State.Types.{Address, Pointer, Account, State}
use zkrollup_go.State.{get_account, store}
use zkrollup_go.State.Accounts.{
  IsEntry, IsWellFormed, put, put_self, IsEntry-get_account, create_account, created,
  create_account-eq-created,
}

-- The balance, with nil for nothing.
abbrev pub funds : Account → ℤ
funds account = elim account.balance [ none ↦ pos 0 | some balance ↦ balance ]

-- Of an account that may be missing.
abbrev pub funds_of : Option Account → ℤ
funds_of none = pos 0
funds_of (some account) = funds account

abbrev pub nonce_at : Option Account → ℕ
nonce_at none = 0
nonce_at (some account) = account.nonce

supply_of : (Pointer → Account) → Map Address Pointer → ℤ
supply_of heap [] = pos 0
supply_of heap ((a, p) ∷ m) = funds (heap p) +ℤ supply_of heap m

unfoldable pub supply : State → ℤ
unfolding supply_of
supply s = supply_of s.heap s.accounts

supply_of_untouched :
    (heap : Pointer → Account) (next p : Pointer) (account : Account) (m : Map Address Pointer)
    → All (IsEntry heap next) m
    → contains (heap p).address m ≡ false
    → supply_of (put heap p account) m ≡ supply_of heap m
unfolding supply_of
supply_of_untouched heap next p account [] h absent = refl
supply_of_untouched heap next p account ((a, q) ∷ m) h absent =
    ground (arith, supply_of_untouched heap next p account m h.1)

supply_of-put :
    (heap : Pointer → Account) (next p : Pointer) (account : Account) (m : Map Address Pointer)
    → All (IsEntry heap next) m
    → HasUniqueKeys m
    → lookup (heap p).address m ≡ some p
    → supply_of (put heap p account) m +ℤ funds (heap p) ≡ supply_of heap m +ℤ funds account
unfolding supply_of
supply_of-put heap next p account [] h u e = cc
supply_of-put heap next p account ((a, q) ∷ m) h u e = grind (
  int_laws,
  supply_of-put heap next p account m h.1 u.1,
  supply_of_untouched heap next p account m h.1,
)

-- A write moves the supply by the change of the one balance.
pub supply-store :
    {s : State} (p : Pointer) (account : Account)
    → IsWellFormed s
    → get_account account.address s ≡ some p
    → supply (store p account s) +ℤ funds (s.heap p) ≡ supply s +ℤ funds account
unfolding supply store get_account
supply-store {s} p account w e =
    supply_of-put s.heap s.next p account s.accounts w.entries w.unique
      (rw (IsEntry-get_account account.address p w e).1 e)

supply_of_fresh :
    (heap : Pointer → Account) (next : Pointer) (account : Account) (m : Map Address Pointer)
    → All (IsEntry heap next) m
    → supply_of (put heap next account) m ≡ supply_of heap m
unfolding supply_of
supply_of_fresh heap next account [] h = refl
supply_of_fresh heap next account ((a, q) ∷ m) h =
    ground (arith, supply_of_fresh heap next account m h.1)

supply_of-insert :
    (heap : Pointer → Account) (a : Address) (p : Pointer) (m : Map Address Pointer)
    → lookup a m ≡ none
    → supply_of heap (insert a p m) ≡ supply_of heap m +ℤ funds (heap p)
unfolding supply_of
supply_of-insert heap a p [] e = omega int_laws
supply_of-insert heap a p ((b, q) ∷ m) e = grind (int_laws, supply_of-insert heap a p m)

-- A new account adds its balance.
pub supply-create :
    {s : State} (account : Account)
    → IsWellFormed s
    → get_account account.address s ≡ none
    → supply (create_account account s) ≡ supply s +ℤ funds account
unfolding supply created get_account
supply-create {s} account w e = rw create_account-eq-created (
    supply_of-insert (put s.heap s.next account) account.address s.next s.accounts e
    ∙ cc (
      supply_of_fresh s.heap s.next account s.accounts w.entries,
      put_self s.heap s.next account,
    ))
