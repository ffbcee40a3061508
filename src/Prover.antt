-- ===== src/Prover.antt =====
-- pkg/crypto/circuit.go and prover.go: the circuit of a transaction, and the proofs for it. gnark is
-- a parameter: its gadgets, as far as they constrain the values of a circuit, the compiler, the
-- proving system and the bytes of proofs and witnesses. `none` is an error.
pub mod Completeness
use zkrollup_go.Base.{
  ℕ, List, [], ◌∷◌, Option, none, some, Bool, true, false, ◌&&◌, leb, length, take, drop,
  if◌then◌else◌,
}
use zkrollup_go.Base.Int.{ℤ}
use zkrollup_go.Hashing.{to_string_ℤ}

infixl 5 ◌>>=◌
abbrev pub ◌>>=◌ : {A B : Type 0} → Option A → (A → Option B) → Option B
none >>= f = none
some a >>= f = f a

-- Elements of the scalar field are the numbers below its size.
pub record Point : Type 0 where
  pub x : ℕ
  pub y : ℕ

pub record Signature : Type 0 where
  pub r : Point
  pub s : ℕ

-- The circuit, with its keys and its signature assigned. An amount is a text in a circuit that
-- CreateWitness assigns, and an element in one that is solved.
pub record TransactionCircuit (V : Type 0) : Type 0 where
  pub from_pub_key : Point
  pub to_pub_key : Point
  pub amount : V
  pub nonce : V
  pub signature : Signature
  pub balance : V

-- What gnark's gadgets ask of the values: the MiMC hash of the elements that are written, and
-- whether a signature of a hash verifies by a key, or an error; and whether the curve and the hash
-- can be made.
pub record Gadgets : Type 0 where
  pub new_ed_curve : Bool
  pub new_mimc : Bool
  pub mimc : List ℕ → ℕ
  pub eddsa_verify : Signature → ℕ → Point → Option Bool

-- What the circuit hashes for the signature.
abbrev pub msg_hash : Gadgets → TransactionCircuit ℕ → ℕ
msg_hash gadgets c =
    gadgets.mimc (c.to_pub_key.x ∷ c.to_pub_key.y ∷ c.amount ∷ c.balance ∷ c.nonce ∷ [])

-- `Define`: whether the values satisfy the constraints.
unfoldable pub define_circuit : Gadgets → TransactionCircuit ℕ → Option Bool
define_circuit gadgets c =
    let in_funds = leb c.amount c.balance in
    if gadgets.new_ed_curve && gadgets.new_mimc
    then (do
      verified ← gadgets.eddsa_verify c.signature (msg_hash gadgets c) c.from_pub_key
      some (in_funds && verified))
    else none

-- The values that the tags of the fields make public, in order.
abbrev pub public_inputs : TransactionCircuit ℕ → List ℕ
public_inputs c =
    c.from_pub_key.x ∷ c.from_pub_key.y ∷ c.to_pub_key.x ∷ c.to_pub_key.y ∷ c.amount ∷ c.nonce ∷ []

-- The rest of gnark, with its constraint systems, keys and proofs. A witness is the values of a
-- circuit, a public witness the list of the public ones. What is read into a public witness stays
-- there beside an error, which the code does not look at.
pub record Gnark (R1cs ProvingKey VerifyingKey Proof : Type 0) : Type 0 where
  pub gadgets : Gadgets
  pub compile : (TransactionCircuit ℕ → Option Bool) → Option R1cs
  pub setup : R1cs → Option (ProvingKey × VerifyingKey)
  pub new_witness : TransactionCircuit (List ℕ) → Option (TransactionCircuit ℕ)
  pub prove : R1cs → ProvingKey → TransactionCircuit ℕ → Option Proof
  pub public_part : TransactionCircuit ℕ → Option (List ℕ)
  pub verify : Proof → VerifyingKey → List ℕ → Bool
  pub write_raw_proof : Proof → Option (List ℕ)
  pub write_witness : List ℕ → Option (List ℕ)
  pub new_public_witness : Option (List ℕ)
  pub read_witness : List ℕ → List ℕ → List ℕ
  pub read_proof : List ℕ → Option Proof

module _ {R1cs ProvingKey VerifyingKey Proof : Type 0}
    (gnark : Gnark R1cs ProvingKey VerifyingKey Proof) where
  pub record Prover : Type 0 where
    pub proving_key : ProvingKey
    pub verifying_key : VerifyingKey
    pub r1cs : R1cs

  -- `NewProver`
  unfoldable pub new_prover : Option Prover
  new_prover = do
    r1cs ← gnark.compile (define_circuit gnark.gadgets)
    keys ← gnark.setup r1cs
    some (record { proving_key = keys.0; verifying_key = keys.1; r1cs = r1cs })

  -- `NewProverWithKeys`
  unfoldable pub new_prover_with_keys : ProvingKey → VerifyingKey → Option Prover
  new_prover_with_keys pk vk = do
    r1cs ← gnark.compile (define_circuit gnark.gadgets)
    some (record { proving_key = pk; verifying_key = vk; r1cs = r1cs })

-- `CreateWitness`; none of its numbers is nil.
unfoldable pub create_witness : Point → Point → ℤ → ℤ → Signature → ℤ → TransactionCircuit (List ℕ)
unfolding to_string_ℤ
create_witness from_pub_key to_pub_key amount nonce signature balance = record {
  from_pub_key = from_pub_key;
  to_pub_key = to_pub_key;
  amount = to_string_ℤ amount;
  nonce = to_string_ℤ nonce;
  signature = signature;
  balance = to_string_ℤ balance;
}

-- The slices of the bytes of a buffer. A raw proof has at least 256 bytes; what Go makes of fewer,
-- which depends on the room behind them, is an error here, as is a slice that starts past the end.
abbrev upto : ℕ → List ℕ → Option (List ℕ)
upto n bytes = if leb n (length bytes) then some (take n bytes) else none

abbrev from_on : ℕ → List ℕ → Option (List ℕ)
from_on n bytes = if leb n (length bytes) then some (drop n bytes) else none

module _ {R1cs ProvingKey VerifyingKey Proof : Type 0}
    (gnark : Gnark R1cs ProvingKey VerifyingKey Proof) where
  -- `GenerateProof`
  unfoldable pub generate_proof :
      Prover gnark → TransactionCircuit (List ℕ) → Option (Proof × List ℕ)
  generate_proof p circuit = do
    witness ← gnark.new_witness circuit
    proof ← gnark.prove p.r1cs p.proving_key witness
    public_witness ← gnark.public_part witness
    some (proof, public_witness)

  unfoldable pub serialize_proof : Proof → Option (List ℕ)
  serialize_proof proof = do bytes ← gnark.write_raw_proof proof; upto 256 bytes

  unfoldable pub serialize_public_witness : List ℕ → Option (List ℕ)
  serialize_public_witness public_witness = do
    bytes ← gnark.write_witness public_witness
    from_on 12 bytes

  -- `GenerateProofSerialized`
  unfoldable pub generate_proof_serialized :
      Prover gnark → TransactionCircuit (List ℕ) → Option (List ℕ × List ℕ)
  unfolding serialize_proof serialize_public_witness
  generate_proof_serialized p circuit = do
    witness ← gnark.new_witness circuit
    proof ← gnark.prove p.r1cs p.proving_key witness
    proof_bytes ← serialize_proof proof
    public_witness ← gnark.public_part witness
    witness_bytes ← serialize_public_witness public_witness
    some (proof_bytes, witness_bytes)

  -- `VerifyProof`, which returns true or an error
  unfoldable pub verify_proof : Prover gnark → List ℕ → List ℕ → Option Bool
  verify_proof p proof_bytes public_witness_bytes = do
    empty ← gnark.new_public_witness
    let public_witness = gnark.read_witness empty public_witness_bytes
    proof ← gnark.read_proof proof_bytes
    if gnark.verify proof p.verifying_key public_witness then some true else none
