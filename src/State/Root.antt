-- ===== src/State/Root.antt =====
-- pkg/state/state.go, GetStateRoot: the root depends on the accounts alone, not on the order in which
-- the loop takes them.
use zkrollup_go.Base.{
  ◌≡◌, refl, sym, ap, ◌∙◌, ℕ, zero, suc, ◌+◌, ◌%◌, List, [], ◌∷◌, Option, none, some, false, Map,
  lookup, nat_eq, ◌==◌, if◌then◌else◌, contains, HasUniqueKeys, replicate, arith, Bool-cases, inl,
  inr,
}
use mathlib.Core.Option.{some-injective}
use zkrollup_go.Base.Bits.{bit_xor_swap}
use zkrollup_go.Base.Bytes.{be_bytes, nat_bytes}
use zkrollup_go.Base.Int.{ℤ, abs}
use zkrollup_go.State.Types.{Address, Pointer, Account, State}
use zkrollup_go.State.{
  xor_at, xor_bytes, xor_balance, xor_account, root_of, get_state_root, get_account,
}
use zkrollup_go.State.Accounts.{IsWellFormed, account_at, deref}

xor_at_swap :
    (root : List ℕ) (i j a b : ℕ) → xor_at i a (xor_at j b root) ≡ xor_at j b (xor_at i a root)
unfolding xor_at
xor_at_swap [] i j a b = refl
xor_at_swap (x ∷ root) zero zero a b = ap (λ y. y ∷ root) (bit_xor_swap x b a)
xor_at_swap (x ∷ root) zero (suc j) a b = refl
xor_at_swap (x ∷ root) (suc i) zero a b = refl
xor_at_swap (x ∷ root) (suc i) (suc j) a b = ap (◌∷◌ x) (xor_at_swap root i j a b)

-- What changes its place with each single change of a byte does so with an account.
module _ (g : List ℕ → List ℕ)
    (swaps : (i b : ℕ) (root : List ℕ) → g (xor_at i b root) ≡ xor_at i b (g root)) where
  xor_bytes_swap :
      (offset i : ℕ) (bytes root : List ℕ)
      → g (xor_bytes offset i bytes root) ≡ xor_bytes offset i bytes (g root)
  unfolding xor_bytes
  xor_bytes_swap offset i [] root = refl
  xor_bytes_swap offset i (b ∷ bytes) root =
      xor_bytes_swap offset (suc i) bytes (xor_at ((i + offset) % 32) b root)
      ∙ ap (xor_bytes offset (suc i) bytes) (swaps ((i + offset) % 32) b root)

  xor_balance_swap :
      (balance : Option ℤ) (root : List ℕ)
      → g (xor_balance balance root) ≡ xor_balance balance (g root)
  unfolding xor_balance
  xor_balance_swap none root = refl
  xor_balance_swap (some balance) root = xor_bytes_swap 16 0 (nat_bytes (abs balance)) root

  xor_account_swap :
      (address : Address) (account : Account) (root : List ℕ)
      → g (xor_account address account root) ≡ xor_account address account (g root)
  unfolding xor_account
  xor_account_swap address account root =
      let nonce = account.nonce in
      let keyed = xor_bytes 0 0 (be_bytes 20 address) in
      swaps (nonce % 32) (nonce % 256) (xor_balance account.balance (keyed root))
      ∙ ap (xor_at (nonce % 32) (nonce % 256)) (
          xor_balance_swap account.balance (keyed root)
          ∙ ap (xor_balance account.balance) (xor_bytes_swap 0 0 (be_bytes 20 address) root))

-- Two accounts may change their places.
accounts_swap :
    (a b : Address) (v w : Account) (root : List ℕ)
    → xor_account a v (xor_account b w root) ≡ xor_account b w (xor_account a v root)
accounts_swap a b v w =
    xor_account_swap (xor_account a v)
      (λ i byte root.
        sym (xor_account_swap (xor_at i byte) (λ j c r. xor_at_swap r i j byte c) a v root))
      b w

erase : Address → Map Address Pointer → Map Address Pointer
erase a [] = []
erase a ((k, p) ∷ m) = if k == a then m else (k, p) ∷ erase a m

missing : (a : Address) (m : Map Address Pointer) → contains a m ≡ false → lookup a m ≡ none
missing a [] h = refl
missing a ((k, p) ∷ m) h = ground (arith, missing a m)

lookup-erase :
    (a k : Address) (m : Map Address Pointer)
    → HasUniqueKeys m
    → lookup k (erase a m) ≡ (if a == k then none else lookup k m)
unfolding erase
lookup-erase a k [] h = ground arith
lookup-erase a k ((j, p) ∷ m) h = ground (arith, lookup-erase a k m h.1, missing j m h.0)

erase-HasUniqueKeys :
    (a : Address) (m : Map Address Pointer) → HasUniqueKeys m → HasUniqueKeys (erase a m)
unfolding erase
erase-HasUniqueKeys a [] h = tt
erase-HasUniqueKeys a ((j, p) ∷ m) h =
    ground (arith, erase-HasUniqueKeys a m h.1, lookup-erase a j m h.1)

-- The loop may begin with any account.
root_of-erase :
    (heap : Pointer → Account) (a : Address) (p : Pointer) (m : Map Address Pointer) (root : List ℕ)
    → lookup a m ≡ some p
    → root_of heap m root ≡ root_of heap (erase a m) (xor_account a (heap p) root)
unfolding root_of erase
root_of-erase heap a p [] root h = absurd (ground (arith, h))
root_of-erase heap a p ((k, q) ∷ m) root h = elim (Bool-cases (k == a)) [
  | inl same ↦
      let key : k ≡ a = (nat_eq.eqb_iff k a).0 same in
      let place : some q ≡ some p = rw (same) at h in
      rw (same) (
        ap (λ b. root_of heap m (xor_account b (heap q) root)) key
        ∙ ap (λ r. root_of heap m (xor_account a (heap r) root)) (some-injective q p place))
  | inr other ↦ rw (other) (
      root_of-erase heap a p m (xor_account k (heap q) root) (rw (other) at h)
      ∙ ap (root_of heap (erase a m)) (accounts_swap a k (heap p) (heap q) root))
]

known :
    (heap : Pointer → Account) (o : Option Pointer) (account : Account)
    → deref heap o ≡ some account
    → (p : Pointer) × (o ≡ some p) × (heap p ≡ account)
known heap none account h = absurd (ground (arith, h))
known heap (some p) account h = (p, refl, some-injective (heap p) account h)

no_entry :
    (heap : Pointer → Account) (m : Map Address Pointer)
    → ((a : Address) → deref heap (lookup a m) ≡ none)
    → m ≡ []
no_entry heap [] h = refl
no_entry heap ((k, p) ∷ m) h = absurd (ground (arith, nat_eq.eqb_iff k k, h k))

-- The accounts but for the first.
same_rest :
    (heap heap' : Pointer → Account) (k : Address) (p : Pointer) (m m' : Map Address Pointer)
    → contains k m ≡ false
    → HasUniqueKeys m'
    → ((a : Address) → deref heap (lookup a ((k, p) ∷ m)) ≡ deref heap' (lookup a m'))
    → (a : Address) → deref heap (lookup a m) ≡ deref heap' (lookup a (erase k m'))
same_rest heap heap' k p m m' new u' same a = elim (Bool-cases (k == a)) [
  | inl key ↦
      let none_here : lookup a m ≡ none =
        ap (λ b. lookup b m) (sym ((nat_eq.eqb_iff k a).0 key)) ∙ missing k m new in
      rw (lookup-erase k a m' u', key, none_here) refl
  | inr other ↦ rw (lookup-erase k a m' u', other) (rw (other) at (same a))
]

same_accounts :
    (heap heap' : Pointer → Account) (m m' : Map Address Pointer)
    → HasUniqueKeys m
    → HasUniqueKeys m'
    → ((a : Address) → deref heap (lookup a m) ≡ deref heap' (lookup a m'))
    → (root : List ℕ) → root_of heap m root ≡ root_of heap' m' root
unfolding root_of
same_accounts heap heap' [] m' u u' same root =
    ap (λ l. root_of heap' l root) (sym (no_entry heap' m' (λ a. sym (same a))))
same_accounts heap heap' ((k, p) ∷ m) m' u u' same root =
    let first : deref heap' (lookup k m') ≡ some (heap p) =
      ground (arith, nat_eq.eqb_iff k k, same k) in
    let (p', found, account) = known heap' (lookup k m') (heap p) first in
    same_accounts heap heap' m (erase k m') u.1 (erase-HasUniqueKeys k m' u')
      (same_rest heap heap' k p m m' u.0 u' same) (xor_account k (heap p) root)
    ∙ ap (λ v. root_of heap' (erase k m') (xor_account k v root)) (sym account)
    ∙ sym (root_of-erase heap' k p' m' root found)

-- Two well-formed states with the same accounts at all addresses have the same state root, wherever
-- the objects lie and in whatever order the loop over the map takes them.
pub get_state_root-account_at :
    (s s' : State)
    → IsWellFormed s
    → IsWellFormed s'
    → ((a : Address) → account_at s a ≡ account_at s' a)
    → get_state_root s ≡ get_state_root s'
unfolding get_state_root account_at get_account
get_state_root-account_at s s' w w' same =
    same_accounts s.heap s'.heap s.accounts s'.accounts w.unique w'.unique same (replicate 32 0)
