-- ===== src/Prover/Completeness.antt =====
-- pkg/crypto/prover.go: which transactions have proofs, and that proofs are accepted.
use zkrollup_go.Base.{
  ◌≡◌, ◌≢◌, ◌≤◌, ◌⊎◌, refl, inl, inr, ℕ, ◌-◌, ◌%◌, List, [], ◌∷◌, Option, none, some, Bool, true,
  Option-cases, arith,
}
use mathlib.Core.Option.{some-injective}
use zkrollup_go.Base.Int.{ℤ, pos, negsuc}
use zkrollup_go.Hashing.{to_string_ℤ}
use zkrollup_go.Prover.{
  Point, Signature, TransactionCircuit, define_circuit, public_inputs, Gnark, Prover, new_prover,
  create_witness, generate_proof, verify_proof, ◌>>=◌,
}

-- The element of a field of size `p` for an integer.
abbrev pub reduce : ℕ → ℤ → ℕ
reduce p (pos n) = n % p
reduce p (negsuc n) = p - 1 - n % p

module _ {R1cs ProvingKey VerifyingKey Proof : Type 0}
    (gnark : Gnark R1cs ProvingKey VerifyingKey Proof) (p : ℕ) where
  -- What gnark's documentation says of the calls: decimal texts are reduced to elements; a proof
  -- exists where the constraints of a circuit that compiles are satisfied, and nowhere else; proofs
  -- verify; and what is written is read back.
  pub record IsGnark : Type 0 where
    pub reads_texts :
        (from_pub_key to_pub_key : Point) (amount nonce balance : ℤ) (signature : Signature)
        → gnark.new_witness (record {
          from_pub_key = from_pub_key;
          to_pub_key = to_pub_key;
          amount = to_string_ℤ amount;
          nonce = to_string_ℤ nonce;
          signature = signature;
          balance = to_string_ℤ balance;
        })
          ≡ some (record {
            from_pub_key = from_pub_key;
            to_pub_key = to_pub_key;
            amount = reduce p amount;
            nonce = reduce p nonce;
            signature = signature;
            balance = reduce p balance;
          })
    pub makes_public : (w : TransactionCircuit ℕ) → gnark.public_part w ≡ some (public_inputs w)
    pub compiles :
        (r : R1cs) (w : TransactionCircuit ℕ)
        → gnark.compile (define_circuit gnark.gadgets) ≡ some r
        → define_circuit gnark.gadgets w ≢ none
    pub proves :
        (circuit : TransactionCircuit ℕ → Option Bool) (r : R1cs) (pk : ProvingKey)
        (vk : VerifyingKey) (w : TransactionCircuit ℕ)
        → gnark.compile circuit ≡ some r
        → gnark.setup r ≡ some (pk, vk)
        → circuit w ≡ some true
        → (proof : Proof) × (gnark.prove r pk w ≡ some proof)
          × (gnark.verify proof vk (public_inputs w) ≡ true)
    pub refuses :
        (circuit : TransactionCircuit ℕ → Option Bool) (r : R1cs) (pk : ProvingKey)
        (w : TransactionCircuit ℕ)
        → gnark.compile circuit ≡ some r
        → circuit w ≢ some true
        → gnark.prove r pk w ≡ none
    pub reads_proofs :
        (proof : Proof)
        → (bytes : List ℕ) × (gnark.write_raw_proof proof ≡ some bytes)
          × (gnark.read_proof bytes ≡ some proof)
    pub reads_witnesses :
        (values : List ℕ)
        → (bytes empty : List ℕ) × (gnark.write_witness values ≡ some bytes)
          × (gnark.new_public_witness ≡ some empty)
          × (gnark.read_witness empty bytes ≡ values)

  -- the elements of a transaction
  abbrev pub elements : Point → Point → ℤ → ℤ → Signature → ℤ → TransactionCircuit ℕ
  elements from_pub_key to_pub_key amount nonce signature balance = record {
    from_pub_key = from_pub_key;
    to_pub_key = to_pub_key;
    amount = reduce p amount;
    nonce = reduce p nonce;
    signature = signature;
    balance = reduce p balance;
  }

  -- The amount is in the funds, and the sender has signed the recipient, the amount, the balance and
  -- the nonce.
  abbrev pub IsPayable : TransactionCircuit ℕ → Type 0
  IsPayable w =
      (w.amount ≤ w.balance)
      × (gnark.gadgets.eddsa_verify w.signature
            (gnark.gadgets.mimc
              (w.to_pub_key.x ∷ w.to_pub_key.y ∷ w.amount ∷ w.balance ∷ w.nonce ∷ []))
            w.from_pub_key
          ≡ some true)

  define_circuit-IsPayable :
      (w : TransactionCircuit ℕ)
      → define_circuit gnark.gadgets w ≢ none
      → (define_circuit gnark.gadgets w ≡ some true) × IsPayable w
        ⊎ (define_circuit gnark.gadgets w ≢ some true) × (IsPayable w → ⊥)
  unfolding define_circuit
  define_circuit-IsPayable w made = ground arith

  -- a prover that NewProver makes
  made_prover :
      (prover : Prover gnark)
      → new_prover gnark ≡ some prover
      → (gnark.compile (define_circuit gnark.gadgets) ≡ some prover.r1cs)
        × (gnark.setup prover.r1cs ≡ some (prover.proving_key, prover.verifying_key))
  unfolding new_prover
  made_prover prover made = elim (Option-cases (gnark.compile (define_circuit gnark.gadgets))) [
    | inl failed ↦ absurd (cc (rw (new_prover, failed) at made))
    | inr (r1cs, compiled) ↦ elim (Option-cases (gnark.setup r1cs)) [
      | inl failed ↦ absurd (cc (rw (new_prover, compiled, failed) at made))
      | inr (keys, set_up) ↦
          let same = some-injective _ _ (rw (new_prover, compiled, ◌>>=◌, set_up) at made) in
          rw⁻¹ (same) (compiled, set_up)
    ]
  ]

  -- What VerifyProof says of the bytes of a proof and of its public values, as gnark writes them.
  abbrev pub verify_written : Prover gnark → Proof × List ℕ → Option Bool
  verify_written prover result = do
    proof_bytes ← gnark.write_raw_proof result.0
    witness_bytes ← gnark.write_witness result.1
    verify_proof gnark prover proof_bytes witness_bytes

  -- A proof that comes with the public values, and that VerifyProof accepts.
  abbrev pub IsAccepted : Prover gnark → TransactionCircuit ℕ → Proof × List ℕ → Type 0
  IsAccepted prover w result =
      (result.1 ≡ public_inputs w) × (verify_written prover result ≡ some true)

  -- How GenerateProof ends: with an accepted proof of a payable transaction, or with an error for
  -- one that is not payable.
  abbrev pub Proves : Prover gnark → TransactionCircuit ℕ → Option (Proof × List ℕ) → Type 0
  Proves prover w none = IsPayable w → ⊥
  Proves prover w (some result) = IsPayable w × IsAccepted prover w result

  module _ (laws : IsGnark) (prover : Prover gnark) (made : new_prover gnark ≡ some prover) where
    accepted_lem :
        (w : TransactionCircuit ℕ) (proof : Proof)
        → gnark.verify proof prover.verifying_key (public_inputs w) ≡ true
        → IsAccepted prover w (proof, public_inputs w)
    unfolding verify_proof
    accepted_lem w proof verified =
        let (proof_bytes, written, read) = laws.reads_proofs proof in
        let (bytes, empty, written', fresh, read') = laws.reads_witnesses (public_inputs w) in
        (refl, rw (◌>>=◌, written, written', verify_proof, fresh, read, read', verified) refl)

    -- A prover that NewProver makes gives a proof for the witness of a transaction exactly where the
    -- amount is at most the balance, both as elements of the field, and the sender's signature of the
    -- recipient, the amount, the balance and the nonce verifies; VerifyProof accepts the bytes of
    -- each proof with its public values, as gnark writes them. gnark keeps what it documents.
    pub generate_proof-Proves :
        (from_pub_key to_pub_key : Point) (amount nonce : ℤ) (signature : Signature) (balance : ℤ)
        → Proves prover (elements from_pub_key to_pub_key amount nonce signature balance) (
            generate_proof gnark prover
              (create_witness from_pub_key to_pub_key amount nonce signature balance))
    unfolding generate_proof create_witness
    generate_proof-Proves from_pub_key to_pub_key amount nonce signature balance =
        let w = elements from_pub_key to_pub_key amount nonce signature balance in
        let (compiled, set_up) = made_prover prover made in
        let read = laws.reads_texts from_pub_key to_pub_key amount nonce balance signature in
        elim (define_circuit-IsPayable w (laws.compiles prover.r1cs w compiled)) [
          | inl (satisfied, payable) ↦
              let (proof, proved, verified) =
                laws.proves _ prover.r1cs prover.proving_key prover.verifying_key w compiled set_up
                  satisfied in
              rw (generate_proof, create_witness, read, ◌>>=◌, proved, laws.makes_public w)
                (payable, accepted_lem w proof verified)
          | inr (unsatisfied, unpayable) ↦
              let refused = laws.refuses _ prover.r1cs prover.proving_key w compiled unsatisfied in
              rw (generate_proof, create_witness, read, ◌>>=◌, refused) unpayable
        ]
