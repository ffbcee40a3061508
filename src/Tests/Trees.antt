-- ===== src/Tests/Trees.antt =====
-- The theorems about the Merkle tree at concrete inputs.
use zkrollup_go.Base.{◌≡◌, refl, ◌⊎◌, ◌+◌, ◌*◌, List, [], ◌∷◌, true, false, arith}
use zkrollup_go.State.{Hash}
use zkrollup_go.Merkle.{
  Key, key_eq, MerkleTree, new_merkle_tree, zeros_from, update, verify_proof, climb, parent_key,
  change_bit,
}
use zkrollup_go.Merkle.Proofs.{Collision, verify_proof_binds, verify_proof_ignores_key}

-- stands for SHA-256
abbrev mix : Hash → Hash → Hash
mix a b = 3 * a + 5 * b + 1

abbrev at_ten : Key
at_ten = true ∷ false ∷ []

abbrev at_eleven : Key
at_eleven = true ∷ true ∷ []

abbrev tree : MerkleTree
tree = update at_ten 7 (new_merkle_tree mix 97 2)

-- the root over the leaf 7 with the hashes 2 and 4
abbrev root : Hash
root = mix (mix 7 2) 4

abbrev leaf : Hash
leaf = 7

abbrev path : List Hash
path = 2 ∷ 4 ∷ []

verify_proof_binds_example : (leaf ≡ leaf) × (path ≡ path) ⊎ Collision mix
unfolding new_merkle_tree zeros_from update verify_proof climb parent_key change_bit
verify_proof_binds_example =
    verify_proof_binds mix 97 tree root at_ten at_eleven leaf leaf path path (omega arith)
      (omega arith) refl refl

verify_proof_ignores_key_example :
    verify_proof mix 97 at_ten 7 (2 ∷ 4 ∷ []) root tree
    ≡ verify_proof mix 97 at_eleven 7 (2 ∷ 4 ∷ []) root tree
unfolding new_merkle_tree zeros_from update
verify_proof_ignores_key_example =
    verify_proof_ignores_key mix 97 tree root at_ten at_eleven 7 (2 ∷ 4 ∷ []) (omega arith)
      (omega arith)
