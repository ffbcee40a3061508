-- ===== src/Tests/Proofs.antt =====
-- The theorem about the proofs of transactions at a concrete input.
use zkrollup_go.Base.{
  ◌≡◌, ◌≢◌, refl, ℕ, ◌+◌, List, [], ◌∷◌, Option, none, some, Bool, true, false, nat_eqb, foldl,
}
use mathlib.Core.Option.{some-injective}
use zkrollup_go.Base.Int.{pos}
use zkrollup_go.Hashing.{parse_amount}
use zkrollup_go.Hashing.Decimal.{parse_amount-to_string_ℤ}
use zkrollup_go.Prover.{
  Point, Signature, TransactionCircuit, Gadgets, define_circuit, public_inputs, Gnark, Prover,
  new_prover, create_witness, generate_proof, ◌>>=◌,
}
use zkrollup_go.Prover.Completeness.{reduce, IsGnark, Proves, elements, generate_proof-Proves}

abbrev Circuit : Type 0
Circuit = TransactionCircuit ℕ → Option Bool

-- a hash that adds up, and signatures that are the hash
abbrev sums : Gadgets
sums = record {
  new_ed_curve = true;
  new_mimc = true;
  mimc = foldl (λ a b. a + b) 0;
  eddsa_verify = λ signature hash key. some (nat_eqb signature.s hash);
}

abbrev solved : Option Bool → ℕ → Option ℕ
solved (some true) proof = some proof
solved _ proof = none

abbrev read_texts : TransactionCircuit (List ℕ) → Option (TransactionCircuit ℕ)
read_texts c = do
  amount ← parse_amount c.amount
  nonce ← parse_amount c.nonce
  balance ← parse_amount c.balance
  some (record {
    from_pub_key = c.from_pub_key;
    to_pub_key = c.to_pub_key;
    amount = reduce 101 amount;
    nonce = reduce 101 nonce;
    signature = c.signature;
    balance = reduce 101 balance;
  })

-- A field of 101 elements, and proofs that are the amount.
abbrev gnark : Gnark Circuit (Unit {0}) (Unit {0}) ℕ
gnark = record {
  gadgets = sums;
  compile = λ circuit. some circuit;
  setup = λ r1cs. some (tt, tt);
  new_witness = read_texts;
  prove = λ r1cs key w. solved (r1cs w) w.amount;
  public_part = λ w. some (public_inputs w);
  verify = λ proof key values. true;
  write_raw_proof = λ proof. some (proof ∷ []);
  write_witness = λ values. some values;
  new_public_witness = some [];
  read_witness = λ empty bytes. bytes;
  read_proof = λ bytes. elim bytes [ [] ↦ none | proof ∷ _ ↦ some proof ];
}

unsolved : (o : Option Bool) (proof : ℕ) → o ≢ some true → solved o proof ≡ none
unsolved none proof h = refl
unsolved (some true) proof h = absurd (h refl)
unsolved (some false) proof h = refl

laws : IsGnark gnark 101
unfolding define_circuit
laws = record {
  reads_texts = λ from to amount nonce balance signature.
      rw
        (
          ◌>>=◌,
          parse_amount-to_string_ℤ amount,
          parse_amount-to_string_ℤ nonce,
          parse_amount-to_string_ℤ balance,
        )
        refl;
  makes_public = λ w. refl;
  compiles = λ r w compiled e. cc;
  proves = λ circuit r pk vk w compiled set_up satisfied.
      (w.amount, rw⁻¹ (some-injective _ _ compiled) (rw (satisfied) refl), refl);
  refuses = λ circuit r pk w compiled unsatisfied.
      rw⁻¹ (some-injective _ _ compiled) (unsolved (circuit w) w.amount unsatisfied);
  reads_proofs = λ proof. (proof ∷ [], refl, refl);
  reads_witnesses = λ values. (values, [], refl, refl, refl);
}

abbrev prover : Prover gnark
prover = record { proving_key = tt; verifying_key = tt; r1cs = define_circuit sums }

abbrev sender : Point
sender = record { x = 1; y = 2 }

abbrev recipient : Point
recipient = record { x = 3; y = 4 }

-- a signature of the payment of 30 out of 40 with the nonce 1
abbrev signed : Signature
signed = record { r = sender; s = 78 }

generate_proof-Proves_example :
    Proves gnark 101 prover (elements gnark 101 sender recipient (pos 30) (pos 1) signed (pos 40)) (
      generate_proof gnark prover
        (create_witness sender recipient (pos 30) (pos 1) signed (pos 40)))
unfolding new_prover
generate_proof-Proves_example =
    generate_proof-Proves gnark 101 laws prover refl sender recipient (pos 30) (pos 1) signed
      (pos 40)

-- the payment is payable
payable :
    define_circuit sums (elements gnark 101 sender recipient (pos 30) (pos 1) signed (pos 40))
    ≡ some true
unfolding define_circuit
payable = refl
