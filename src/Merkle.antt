-- ===== src/Merkle.antt =====
-- pkg/state/tree.go: the sparse Merkle tree. A key [32]byte is the list of its 256 bits in the order
-- in which the levels read them: at `level`, the bit of weight 2 ^ (level % 8) of byte level / 8. A
-- hash is the number that its bytes spell, and so is an element of the field. `none` is the panic
-- of an index out of range, which a depth of more than 256 brings about.
pub mod Proofs
use zkrollup_go.Base.{
  ℕ, zero, suc, ◌+◌, ◌%◌, ◌≡◌, refl, ◌↔◌, List, [], ◌∷◌, ◌++◌, Option, none, some, Bool, true,
  false, not, ◌&&◌, Map, lookup, insert, Eq, ◌==◌, nat_eqb, nat_eqb_iff, if◌then◌else◌, length,
  get_or, arith,
}
use zkrollup_go.State.{Hash}

abbrev pub Key : Type 0
Key = List Bool

abbrev same_bit : Bool → Bool → Bool
same_bit true b = b
same_bit false b = not b

abbrev same_key : Key → Key → Bool
same_key [] [] = true
same_key [] (b ∷ j) = false
same_key (a ∷ k) [] = false
same_key (a ∷ k) (b ∷ j) = same_bit a b && same_key k j

pub same_key_iff : (k j : Key) → (same_key k j ≡ true) ↔ (k ≡ j)
same_key_iff [] [] = ((λ h. refl), (λ h. refl))
same_key_iff [] (b ∷ j) = ground arith
same_key_iff (a ∷ k) [] = ground arith
same_key_iff (a ∷ k) (b ∷ j) = ground (arith, same_key_iff k j)

instance abbrev pub key_eq : Eq Key
key_eq = record { eqb = same_key; eqb_iff = same_key_iff }

pub record MerkleTree : Type 0 where
  pub depth : ℕ
  pub zero_hashes : List Hash
  pub leaves : Map Key Hash

-- Changes the bit of a level.
unfoldable pub change_bit : (Bool → Bool) → ℕ → Key → Option Key
change_bit f level [] = none
change_bit f zero (b ∷ bs) = some (f b ∷ bs)
change_bit f (suc level) (b ∷ bs) = elim (change_bit f level bs) [
  | none ↦ none
  | some rest ↦ some (b ∷ rest)
]

-- `computeSiblingKey`
unfoldable pub sibling_key : ℕ → Key → Option Key
unfolding change_bit
sibling_key level key = change_bit not level key

-- `computeParentKey`
unfoldable pub parent_key : ℕ → Key → Option Key
unfolding change_bit
parent_key level key = change_bit (λ b. false) level key

unfoldable pub update : Key → Hash → MerkleTree → MerkleTree
update key value t = record t { leaves = insert key value t.leaves }

abbrev pub or_else : Option Hash → Hash → Hash
or_else none default = default
or_else (some value) default = value

unfoldable pub get : Key → MerkleTree → Hash
get key t = or_else (lookup key t.leaves) 0

-- SHA-256 of the two times 32 bytes, and the size of the field.
module _ (sha256 : Hash → Hash → Hash) (modulus : ℕ) where
  -- the loop of NewMerkleTree, from the hash of a level on
  unfoldable pub zeros_from : ℕ → Hash → List Hash
  zeros_from zero h = h ∷ []
  zeros_from (suc n) h = h ∷ zeros_from n (sha256 h h)

  -- `NewMerkleTree`
  unfoldable pub new_merkle_tree : ℕ → MerkleTree
  unfolding zeros_from
  new_merkle_tree depth = record { depth = depth; zero_hashes = zeros_from depth 0; leaves = [] }

  -- `hashPair`, on elements of the field
  unfoldable pub hash_pair : ℕ → ℕ → ℕ
  hash_pair left right = sha256 left right % modulus

  -- the inner loop of GetRoot, whose entries come in the order of the list (in Go, in any order)
  unfoldable pub next_nodes :
      MerkleTree → ℕ → Map Key ℕ → Map Key ℕ → Map Key ℕ → Option (Map Key ℕ)
  unfolding hash_pair
  next_nodes t level nodes [] new_nodes = some new_nodes
  next_nodes t level nodes ((key, value) ∷ rest) new_nodes = elim (sibling_key level key) [
    | none ↦ none
    | some sibling ↦ elim (parent_key level key) [
      | none ↦ none
      | some parent ↦
          let sibling_value =
            or_else (lookup sibling nodes) (get_or t.zero_hashes level 0 % modulus) in
          next_nodes t level nodes rest (insert parent (hash_pair value sibling_value) new_nodes)
    ]
  ]

  -- the outer loop of GetRoot, with `levels` rounds to go
  unfoldable pub compute_root : MerkleTree → ℕ → Map Key ℕ → Option (Map Key ℕ)
  unfolding next_nodes
  compute_root t zero nodes = some nodes
  compute_root t (suc level) nodes = elim (next_nodes t level nodes nodes []) [
    | none ↦ none
    | some new_nodes ↦ compute_root t level new_nodes
  ]

  abbrev field_elements : Map Key Hash → Map Key ℕ
  field_elements [] = []
  field_elements ((key, value) ∷ rest) = (key, value % modulus) ∷ field_elements rest

  abbrev first_value : Map Key ℕ → Hash
  first_value [] = 0
  first_value ((key, value) ∷ rest) = value

  -- `GetRoot`
  unfoldable pub get_root : MerkleTree → Option Hash
  unfolding compute_root
  get_root t =
      if nat_eqb (length t.leaves) 0
      then some (get_or t.zero_hashes t.depth 0)
      else elim (compute_root t t.depth (field_elements t.leaves)) [
        | none ↦ none
        | some nodes ↦ some (first_value nodes)
      ]

  -- the loop of GenerateProof, from a level on, with `levels` rounds to go
  unfoldable pub proof_from : MerkleTree → ℕ → ℕ → Key → Option (List Hash)
  proof_from t level zero key = some []
  proof_from t level (suc levels) key = elim (sibling_key level key) [
    | none ↦ none
    | some sibling ↦ elim (parent_key level key) [
      | none ↦ none
      | some parent ↦
          let hash = or_else (lookup sibling t.leaves) (get_or t.zero_hashes level 0) in
          elim (proof_from t (suc level) levels parent) [
            | none ↦ none
            | some rest ↦ some (hash ∷ rest)
          ]
    ]
  ]

  -- `GenerateProof`; the inner `none` is the error for a key that is not found.
  unfoldable pub generate_proof : Key → MerkleTree → Option (Option (List Hash))
  generate_proof key t = elim (lookup key t.leaves) [
    | none ↦ some none
    | some _ ↦ elim (proof_from t 0 t.depth key) [ none ↦ none | some proof ↦ some (some proof) ]
  ]

  -- the loop of VerifyProof, from a level on
  unfoldable pub climb : ℕ → Key → Hash → List Hash → Option Hash
  climb level key current [] = some current
  climb level key current (sibling ∷ rest) = elim (parent_key level key) [
    | none ↦ none
    | some parent ↦ climb (suc level) parent (sha256 current sibling) rest
  ]

  -- `VerifyProof`
  unfoldable pub verify_proof : Key → Hash → List Hash → Hash → MerkleTree → Option Bool
  verify_proof key value proof root t =
      if nat_eqb (length proof) t.depth
      then elim (climb 0 key value proof) [ none ↦ none | some hash ↦ some (nat_eqb hash root) ]
      else some false
