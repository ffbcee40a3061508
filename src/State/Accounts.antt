-- ===== src/State/Accounts.antt =====
-- The accounts as a client sees them: a finite map from addresses to accounts, whatever the
-- places of the objects in the heap.
use zkrollup_go.Base.{
  ◌+◌, ◌<◌, ◌≡◌, Option, none, some, Map, lookup, insert, nat_eq, nat_eqb, if◌then◌else◌,
  lookup-insert, HasUniqueKeys, insert-HasUniqueKeys, [], ◌∷◌, All, arith, Option-cases, inl, inr,
  ap,
}
use zkrollup_go.State.Types.{Address, Pointer, Account, State}
use zkrollup_go.State.{get_account, store, new_account, set_account, new_state}

abbrev pub deref : (Pointer → Account) → Option Pointer → Option Account
deref heap none = none
deref heap (some p) = some (heap p)

-- The abstract view: the account that an address names.
unfoldable pub account_at : State → Address → Option Account
unfolding get_account
account_at s address = deref s.heap (get_account address s)

abbrev pub HasBalance : Account → Type 0
HasBalance account = elim account.balance [ none ↦ ⊥ | some _ ↦ Unit ]

pub account_at_known :
    (s : State) (a : Address) (p : Pointer)
    → get_account a s ≡ some p
    → account_at s a ≡ some (s.heap p)
unfolding account_at
account_at_known s a p e = rw e

pub account_at_missing : (s : State) (a : Address) → get_account a s ≡ none → account_at s a ≡ none
unfolding account_at
account_at_missing s a e = rw e

-- An entry of the map points to an object of this address, whose balance is not nil.
abbrev pub IsEntry : (Pointer → Account) → Pointer → Address × Pointer → Type 0
IsEntry heap next (address, p) = (p < next) × ((heap p).address ≡ address) × HasBalance (heap p)

pub record IsWellFormed (s : State) : Type 0 where
  pub entries : All (IsEntry s.heap s.next) s.accounts
  pub unique : HasUniqueKeys s.accounts

pub new_state-IsWellFormed : IsWellFormed new_state
new_state-IsWellFormed = record { entries = tt; unique = tt }

IsEntry-lookup :
    (heap : Pointer → Account) (next : Pointer) (m : Map Address Pointer) (a : Address)
    (p : Pointer)
    → All (IsEntry heap next) m
    → lookup a m ≡ some p
    → IsEntry heap next (a, p)
IsEntry-lookup heap next [] a p h e = elim (none≢some e) [ ]
  where
    none≢some : none ≡ some p → ⊥
    none≢some q = cc
IsEntry-lookup heap next ((b, q) ∷ m) a p h e = ground (arith, IsEntry-lookup heap next m a p h.1)

pub IsEntry-get_account :
    {s : State} (a : Address) (p : Pointer)
    → IsWellFormed s
    → get_account a s ≡ some p
    → IsEntry s.heap s.next (a, p)
unfolding get_account
IsEntry-get_account {s} a p w e = IsEntry-lookup s.heap s.next s.accounts a p w.entries e

abbrev pub put : (Pointer → Account) → Pointer → Account → Pointer → Account
put heap p account q = if nat_eqb q p then account else heap q

pub put_self :
    (heap : Pointer → Account) (p : Pointer) (account : Account) → put heap p account p ≡ account
put_self heap p account = ground arith

entries_put :
    (heap : Pointer → Account) (next p : Pointer) (account : Account) (m : Map Address Pointer)
    → (heap p).address ≡ account.address
    → HasBalance account
    → All (IsEntry heap next) m
    → All (IsEntry (put heap p account) next) m
entries_put heap next p account [] e b h = tt
entries_put heap next p account ((a, q) ∷ m) e b h =
    ground (arith, entries_put heap next p account m e b h.1)

-- A write through the pointer of a known account changes that account alone.
pub store-IsWellFormed :
    {s : State} (p : Pointer) (account : Account)
    → IsWellFormed s
    → get_account account.address s ≡ some p
    → HasBalance account
    → IsWellFormed (store p account s)
unfolding store
store-IsWellFormed {s} p account w e b = record {
  entries =
      entries_put s.heap s.next p account s.accounts (IsEntry-get_account account.address p w e).1 b
        w.entries;
  unique = w.unique;
}

module _ {s : State} (p : Pointer) (account : Account) (w : IsWellFormed s)
    (known : get_account account.address s ≡ some p) where
  pub account_at-store :
      (b : Address)
      → account_at (store p account s) b
        ≡ (if nat_eqb account.address b then some account else account_at s b)
  unfolding store account_at
  account_at-store b = elim (Option-cases (get_account b s)) [
    | inl missing ↦ ground arith
    | inr (q, found) ↦
        ground
          (arith, IsEntry-get_account b q w found, IsEntry-get_account account.address p w known)
  ]

insert_same :
    (m : Map Address Pointer) (a : Address) (p : Pointer) → lookup a m ≡ some p → insert a p m ≡ m
insert_same [] a p e = cc
insert_same ((b, q) ∷ m) a p e = ground (arith, insert_same m a p)

-- To set an account through the pointer that the map holds already changes nothing.
pub set_account_known :
    (s : State) (p : Pointer) → get_account (s.heap p).address s ≡ some p → set_account p s ≡ s
unfolding set_account get_account
set_account_known s p e = cc (insert_same s.accounts (s.heap p).address p e)

-- So the pair of writes by which the program updates an account is one write.
pub set_account-store :
    (s : State) (p : Pointer) (account : Account)
    → get_account account.address s ≡ some p
    → set_account p (store p account s) ≡ store p account s
unfolding store get_account
set_account-store s p account e =
    set_account_known (store p account s) p (rw (put_self s.heap p account) e)

-- `account = &state.Account{...}; s.state.SetAccount(account)`
unfoldable pub create_account : Account → State → State
unfolding new_account set_account
create_account account s = set_account s.next (new_account account s)

-- The created account as one record.
unfoldable pub created : Account → State → State
created account s = record s {
  accounts = insert account.address s.next s.accounts;
  heap = put s.heap s.next account;
  next = s.next + 1;
}

pub create_account-eq-created :
    (account : Account) (s : State) → create_account account s ≡ created account s
unfolding create_account created store
create_account-eq-created account s =
    ap
      (λ (made : Account). record s {
        accounts = insert made.address s.next s.accounts;
        heap = put s.heap s.next account;
        next = s.next + 1;
      })
      (put_self s.heap s.next account)

entries_grow :
    (heap : Pointer → Account) (next : Pointer) (account : Account) (m : Map Address Pointer)
    → All (IsEntry heap next) m
    → All (IsEntry (put heap next account) (next + 1)) m
entries_grow heap next account [] h = tt
entries_grow heap next account ((a, q) ∷ m) h = ground (arith, entries_grow heap next account m h.1)

entries_insert :
    (heap : Pointer → Account) (next : Pointer) (account : Account) (m : Map Address Pointer)
    → HasBalance account
    → All (IsEntry heap next) m
    → All (IsEntry (put heap next account) (next + 1)) (insert account.address next m)
entries_insert heap next account [] b h = ground arith
entries_insert heap next account ((a, q) ∷ m) b h =
    ground (arith, entries_insert heap next account m b h.1, entries_grow heap next account m h.1)

module _ {s : State} (account : Account) (w : IsWellFormed s) where
  pub create_account-IsWellFormed : HasBalance account → IsWellFormed (create_account account s)
  unfolding created
  create_account-IsWellFormed b = rw create_account-eq-created (record {
    entries = entries_insert s.heap s.next account s.accounts b w.entries;
    unique = insert-HasUniqueKeys account.address s.next s.accounts w.unique;
  })

  pub get_account-create :
      (b : Address)
      → get_account b (create_account account s)
        ≡ (if nat_eqb account.address b then some s.next else get_account b s)
  unfolding created get_account
  get_account-create b =
      rw create_account-eq-created (lookup-insert account.address b s.next s.accounts)

  pub account_at-create :
      (b : Address)
      → account_at (create_account account s) b
        ≡ (if nat_eqb account.address b then some account else account_at s b)
  unfolding created account_at
  account_at-create b = rw create_account-eq-created (elim (Option-cases (get_account b s)) [
    | inl missing ↦ ground (arith, lookup-insert account.address b s.next s.accounts)
    | inr (q, found) ↦
        ground (
          arith,
          IsEntry-get_account b q w found,
          lookup-insert account.address b s.next s.accounts,
        )
  ])
