-- ===== src/Merkle/Proofs.antt =====
-- GenerateProof and VerifyProof of the sparse Merkle tree.
use zkrollup_go.Base.{
  ℕ, zero, suc, ◌+◌, ◌%◌, ◌≤◌, ◌<◌, ◌≡◌, refl, sym, ap, ◌∙◌, ◌⊎◌, inl, inr, List, [], ◌∷◌, none,
  some, Bool, true, false, not, lookup, lookup-insert, eqb_refl, ◌==◌, nat_eqb, nat_eqb_iff,
  if◌then◌else◌, length, get_or, arith, Bool-cases, Option-cases,
}
use zkrollup_go.State.{Hash}
use zkrollup_go.Merkle.{
  Key, key_eq, MerkleTree, change_bit, sibling_key, parent_key, update, get, or_else, proof_from,
  generate_proof, climb, verify_proof, get_root, compute_root, next_nodes, hash_pair,
}

-- A bit within the key can be changed, and the key keeps its length.
change_bit_inside :
    (f : Bool → Bool) (level : ℕ) (key : Key)
    → level < length key
    → (k : Key) × (change_bit f level key ≡ some k) × (length k ≡ length key)
unfolding change_bit
change_bit_inside f level [] h = absurd (omega (arith, h))
change_bit_inside f zero (b ∷ bs) h = (f b ∷ bs, refl, refl)
change_bit_inside f (suc level) (b ∷ bs) h =
    let (k, e, same) = change_bit_inside f level bs (omega (arith, h)) in
    (b ∷ k, rw (e) refl, ap suc same)

parent_key_inside :
    (level : ℕ) (key : Key)
    → level < length key
    → (k : Key) × (parent_key level key ≡ some k) × (length k ≡ length key)
unfolding parent_key
parent_key_inside level key h = change_bit_inside (λ b. false) level key h

sibling_key_inside :
    (level : ℕ) (key : Key)
    → level < length key
    → (k : Key) × (sibling_key level key ≡ some k) × (length k ≡ length key)
unfolding sibling_key
sibling_key_inside level key h = change_bit_inside not level key h

module _ (sha256 : Hash → Hash → Hash) where
  -- the hash at the end of a path
  fold_path : Hash → List Hash → Hash
  fold_path current [] = current
  fold_path current (sibling ∷ rest) = fold_path (sha256 current sibling) rest

  climb_fold :
      (modulus level : ℕ) (key : Key) (current : Hash) (proof : List Hash)
      → level + length proof ≤ length key
      → climb sha256 modulus level key current proof ≡ some (fold_path current proof)
  unfolding climb fold_path
  climb_fold modulus level key current [] h = refl
  climb_fold modulus level key current (sibling ∷ rest) h =
      let (k, e, same) = parent_key_inside level key (omega (arith, h)) in
      rw (e, climb)
        (climb_fold modulus (suc level) k (sha256 current sibling) rest (omega (arith, h, same)))

  -- Two pairs with one hash.
  abbrev pub Collision : Type 0
  Collision =
      (a : Hash) × (b : Hash) × (c : Hash) × (d : Hash) × (sha256 a b ≡ sha256 c d)
      × ((nat_eqb a c ≡ false) ⊎ (nat_eqb b d ≡ false))

  pair_or_collision : (a b c d : Hash) → sha256 a b ≡ sha256 c d → (a ≡ c) × (b ≡ d) ⊎ Collision
  pair_or_collision a b c d e = elim (Bool-cases (nat_eqb a c)) [
    | inr f ↦ inr (a, b, c, d, e, inl f)
    | inl s ↦ elim (Bool-cases (nat_eqb b d)) [
      | inr f ↦ inr (a, b, c, d, e, inr f)
      | inl t ↦ inl ((nat_eqb_iff a c).0 s, (nat_eqb_iff b d).0 t)
    ]
  ]

  fold_path_binds :
      (v w : Hash) (p q : List Hash)
      → length p ≡ length q
      → fold_path v p ≡ fold_path w q
      → (v ≡ w) × (p ≡ q) ⊎ Collision
  unfolding fold_path
  fold_path_binds v w [] [] l e = inl (e, refl)
  fold_path_binds v w [] (t ∷ q) l e = absurd (omega (arith, l))
  fold_path_binds v w (s ∷ p) [] l e = absurd (omega (arith, l))
  fold_path_binds v w (s ∷ p) (t ∷ q) l e =
      elim (fold_path_binds (sha256 v s) (sha256 w t) p q (omega (arith, l)) e) [
        | inr found ↦ inr found
        | inl (heads, tails) ↦ elim (pair_or_collision v s w t heads) [
          | inr found ↦ inr found
          | inl (same, first) ↦ inl (same, cc)
        ]
      ]

module _ (sha256 : Hash → Hash → Hash) (modulus : ℕ) (t : MerkleTree) (root : Hash) where
  verify_proof_lem :
      (key : Key) (value : Hash) (proof : List Hash)
      → t.depth ≤ length key
      → verify_proof sha256 modulus key value proof root t
        ≡ some (
            if nat_eqb (length proof) t.depth
            then nat_eqb (fold_path sha256 value proof) root
            else false)
  unfolding verify_proof
  verify_proof_lem key value proof h = elim (Bool-cases (nat_eqb (length proof) t.depth)) [
    | inl e ↦
        let fits : 0 + length proof ≤ length key =
          omega (arith, (nat_eqb_iff (length proof) t.depth).0 e, h) in
        rw (e, climb_fold sha256 modulus 0 key value proof fits) refl
    | inr e ↦ rw (e) refl
  ]

  -- For keys of at least as many bits as the tree has levels, VerifyProof always returns, and it
  -- does not read the key: it gives the same answer for any two keys.
  pub verify_proof_ignores_key :
      (key other : Key) (value : Hash) (proof : List Hash)
      → t.depth ≤ length key
      → t.depth ≤ length other
      → verify_proof sha256 modulus key value proof root t
        ≡ verify_proof sha256 modulus other value proof root t
  verify_proof_ignores_key key other value proof h h' =
      verify_proof_lem key value proof h ∙ sym (verify_proof_lem other value proof h')

  accepted :
      (value : Hash) (proof : List Hash)
      → some (
          if nat_eqb (length proof) t.depth
          then nat_eqb (fold_path sha256 value proof) root
          else false)
        ≡ some true
      → (length proof ≡ t.depth) × (fold_path sha256 value proof ≡ root)
  accepted value proof e =
      ground
        (arith, nat_eqb_iff (length proof) t.depth, nat_eqb_iff (fold_path sha256 value proof) root)

  -- A root binds what VerifyProof accepts: two values with their proofs that are both accepted for
  -- one root are the same value with the same proof, or two pairs with one hash are at hand.
  pub verify_proof_binds :
      (key other : Key) (v w : Hash) (p q : List Hash)
      → t.depth ≤ length key
      → t.depth ≤ length other
      → verify_proof sha256 modulus key v p root t ≡ some true
      → verify_proof sha256 modulus other w q root t ≡ some true
      → (v ≡ w) × (p ≡ q) ⊎ Collision sha256
  verify_proof_binds key other v w p q h h' e e' =
      let (l, r) = accepted v p (sym (verify_proof_lem key v p h) ∙ e) in
      let (l', r') = accepted w q (sym (verify_proof_lem other w q h') ∙ e') in
      fold_path_binds sha256 v w p q (l ∙ sym l') (r ∙ sym r')

module _ (sha256 : Hash → Hash → Hash) (modulus : ℕ) (t : MerkleTree) where
  proof_from_inside :
      (levels level : ℕ) (key : Key)
      → level + levels ≤ length key
      → (proof : List Hash) × (proof_from sha256 modulus t level levels key ≡ some proof)
        × (length proof ≡ levels)
  unfolding proof_from
  proof_from_inside zero level key h = ([], refl, refl)
  proof_from_inside (suc levels) level key h =
      let (s, es, same_s) = sibling_key_inside level key (omega (arith, h)) in
      let (k, ek, same) = parent_key_inside level key (omega (arith, h)) in
      let (rest, e, len) = proof_from_inside levels (suc level) k (omega (arith, h, same)) in
      (
        or_else (lookup s t.leaves) (get_or t.zero_hashes level 0) ∷ rest,
        rw (proof_from, es, ek, e) refl,
        ap suc len,
      )

  -- For a key of at least as many bits as the tree has levels, GenerateProof always returns: for a
  -- key without a leaf the error, else a proof with one hash for each level.
  pub generate_proof_total :
      (key : Key)
      → t.depth ≤ length key
      → (lookup key t.leaves ≡ none) × (generate_proof sha256 modulus key t ≡ some none)
        ⊎ (proof : List Hash) × (generate_proof sha256 modulus key t ≡ some (some proof))
          × (length proof ≡ t.depth)
  unfolding generate_proof
  generate_proof_total key h =
      let (proof, e, len) = proof_from_inside t.depth 0 key (omega (arith, h)) in
      elim (Option-cases (lookup key t.leaves)) [
        | inl missing ↦ inl (missing, rw (missing, generate_proof) refl)
        | inr (value, found) ↦ inr (proof, rw (found, e, generate_proof) refl, len)
      ]

-- A leaf that was updated is read back, and every other leaf is as before.
pub get-update :
    (key other : Key) (value : Hash) (t : MerkleTree)
    → get other (update key value t) ≡ (if key == other then value else get other t)
unfolding get update
get-update key other value t = ground (arith, lookup-insert key other value t.leaves)

-- Where two leaves are siblings at the lowest level, GetRoot depends on which of them it meets
-- last: the root of a tree with one level hashes them in the one order or in the other.
pub get_root_order :
    (sha256 : Hash → Hash → Hash) (modulus : ℕ) (key : Key) (a b : Hash) (zeros : List Hash)
    → let left : Key = false ∷ key in
      let right : Key = true ∷ key in
      (get_root sha256 modulus
          (record { depth = 1; zero_hashes = zeros; leaves = (left, a) ∷ (right, b) ∷ [] })
        ≡ some (hash_pair sha256 modulus (b % modulus) (a % modulus)))
      × (get_root sha256 modulus
            (record { depth = 1; zero_hashes = zeros; leaves = (right, b) ∷ (left, a) ∷ [] })
          ≡ some (hash_pair sha256 modulus (a % modulus) (b % modulus)))
unfolding get_root compute_root next_nodes sibling_key parent_key change_bit
get_root_order sha256 modulus key a b zeros =
    let same : (key == key) ≡ true = eqb_refl key in (rw (same) refl, rw (same) refl)
