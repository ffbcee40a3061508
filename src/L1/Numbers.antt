-- ===== src/L1/Numbers.antt =====
-- contracts/ZKRollup.sol: which numbers the contract takes, and what it keeps.
use zkrollup_go.Base.{
  ◌≡◌, ◌≢◌, refl, ◌∙◌, ◌⊎◌, inl, inr, ℕ, ◌+◌, ◌^◌, ◌<◌, List, ◌∷◌, some, true, false, lookup,
  lookup-insert, nat_eq, nat_eqb, ltb, ◌&&◌, length, All, arith,
}
use zkrollup_go.State.{Address, Hash, Batch}
use zkrollup_go.Hashing.{to_int64}
use zkrollup_go.L1.{Chain, ZkRollup, to_uint256, is_verified, store_batch, accept_batch, mine}

abbrev pub number_sent : Batch → ℕ
number_sent batch = to_uint256 (to_int64 batch.batch_number)

pub number_sent_lem :
    (batch : Batch) → batch.batch_number < 2 ^ 63 → number_sent batch ≡ batch.batch_number
number_sent_lem batch h = ground arith

pub accept_next :
    (now number : ℕ) (root : Hash) (r : ZkRollup)
    → number ≡ r.current_batch_number + 1
    → accept_batch now number root r ≡ store_batch now number root true r
unfolding accept_batch
accept_next now number root r h =
    let next : (ltb 0 number && nat_eqb number (r.current_batch_number + 1)) ≡ true =
      ground arith in
    rw (next)

pub accept_other :
    (now number : ℕ) (root : Hash) (r : ZkRollup)
    → number ≢ r.current_batch_number + 1
    → accept_batch now number root r ≡ r
unfolding accept_batch
accept_other now number root r h =
    let other : (ltb 0 number && nat_eqb number (r.current_batch_number + 1)) ≡ false =
      ground arith in
    rw (other)

store_batch-is_verified :
    (now number other : ℕ) (root : Hash) (r : ZkRollup)
    → (number ≡ other) ⊎ (is_verified other r ≡ true)
    → is_verified other (store_batch now number root true r) ≡ true
unfolding is_verified store_batch
store_batch-is_verified now number other root r h = ground (
  arith,
  lookup-insert number other (record { state_root = root; verified = true; timestamp = now })
      r.batches,
)

pub mine_lem :
    (now number : ℕ) (at : Address) (root : Hash) (c : Chain) (r : ZkRollup)
    → lookup at c.rollups ≡ some r
    → lookup at (mine now at number root c).rollups ≡ some (accept_batch now number root r)
unfolding mine
mine_lem now number at root c r e =
    rw (mine, e) (lookup-insert at at (accept_batch now number root r) c.rollups ∙ ground arith)

-- What the contract has become: the batches are verified, and so are those that were before.
pub record Anchors (r r' : ZkRollup) (batches : List Batch) : Type 0 where
  pub counted : r'.current_batch_number ≡ r.current_batch_number + length batches
  pub kept : (number : ℕ) → is_verified number r ≡ true → is_verified number r' ≡ true
  pub anchored : All (λ batch. is_verified batch.batch_number r' ≡ true) batches

pub Anchors-cons :
    (now : ℕ) (r r' : ZkRollup) (batch : Batch) (rest : List Batch)
    → batch.batch_number ≡ r.current_batch_number + 1
    → Anchors (store_batch now batch.batch_number batch.state_root true r) r' rest
    → Anchors r r' (batch ∷ rest)
unfolding store_batch
Anchors-cons now r r' batch rest e h = record {
  counted = omega (arith, h.counted, e);
  kept = λ number v.
      h.kept number
        (store_batch-is_verified now batch.batch_number number batch.state_root r (inr v));
  anchored = (
    h.kept batch.batch_number (
        store_batch-is_verified now batch.batch_number batch.batch_number batch.state_root r
          (inl refl)),
    h.anchored,
  );
}
