-- ===== src/Hashing/Separation.antt =====
-- pkg/state/transaction.go: which fields of a transaction its hash tells apart.
use zkrollup_go.Base.{
  ◌≡◌, refl, ap, sym, ◌∙◌, ℕ, ◌%◌, ◌^◌, ◌<◌, List, [], ◌∷◌, ◌++◌, some, arith, length,
  length-append,
}
use native.Mathlib.Nat.{mod-eq_of_lt}
use zkrollup_go.Base.Int.{ℤ, abs}
use zkrollup_go.Base.Bytes.{be_bytes, nat_bytes, of_bytes}
use zkrollup_go.Base.Bytes.Digits.{of_bytes-be_bytes, length-be_bytes, of_bytes-nat_bytes}
use zkrollup_go.State.{Transaction}
use zkrollup_go.Hashing.{hashed_bytes}

append_split :
    {A : Type 0} (xs xs' ys ys' : List A)
    → length xs ≡ length xs'
    → xs ++ ys ≡ xs' ++ ys'
    → (xs ≡ xs') × (ys ≡ ys')
append_split [] [] ys ys' l e = (refl, e)
append_split [] (x ∷ xs') ys ys' l e = absurd (omega (arith, l))
append_split (x ∷ xs) [] ys ys' l e = absurd (omega (arith, l))
append_split (x ∷ xs) (x' ∷ xs') ys ys' l e =
    let head : x ≡ x' = cc in
    let tail : xs ++ ys ≡ xs' ++ ys' = cc in
    let (front, back) = append_split xs xs' ys ys' (omega (arith, l)) tail in (cc, back)

be_bytes_injective : (n x y : ℕ) → x < 256 ^ n → y < 256 ^ n → be_bytes n x ≡ be_bytes n y → x ≡ y
be_bytes_injective n x y hx hy e = omega (
  arith,
  of_bytes-be_bytes n 0 x,
  of_bytes-be_bytes n 0 y,
  ap (of_bytes 0) e,
  mod-eq_of_lt hx,
  mod-eq_of_lt hy,
)

nat_bytes_injective : (x y : ℕ) → nat_bytes x ≡ nat_bytes y → x ≡ y
nat_bytes_injective x y e = sym (of_bytes-nat_bytes x) ∙ ap (of_bytes 0) e ∙ of_bytes-nat_bytes y

be_bytes_split :
    (n x x' : ℕ) (rest rest' : List ℕ)
    → x < 256 ^ n
    → x' < 256 ^ n
    → be_bytes n x ++ rest ≡ be_bytes n x' ++ rest'
    → (x ≡ x') × (rest ≡ rest')
be_bytes_split n x x' rest rest' h h' e =
    let (front, back) =
      append_split (be_bytes n x) (be_bytes n x') rest rest'
        (length-be_bytes n x ∙ sym (length-be_bytes n x')) e in
    (be_bytes_injective n x x' h h' front, back)

-- The sizes that Go's types give the fields.
abbrev pub IsSized : Transaction → Type 0
IsSized tx =
    (tx.tx_type < 256)
    × (tx.from < 256 ^ 20)
    × (tx.to < 256 ^ 20)
    × (tx.nonce < 256 ^ 8)
    × (tx.gas < 256 ^ 8)

abbrev fields : Transaction → ℤ → List ℕ
fields tx amount =
    be_bytes 20 tx.from
    ++ (be_bytes 20 tx.to
        ++ (nat_bytes (abs amount) ++ (be_bytes 8 tx.nonce ++ (tx.payload ++ be_bytes 8 tx.gas))))

abbrev laid_out : Transaction → ℤ → List ℕ
laid_out tx amount = tx.tx_type % 256 ∷ fields tx amount

same_payload_length :
    (tx tx' : Transaction)
    → tx.payload ++ be_bytes 8 tx.gas ≡ tx'.payload ++ be_bytes 8 tx'.gas
    → length tx.payload ≡ length tx'.payload
same_payload_length tx tx' e = omega (
  arith,
  ap length e,
  length-append tx.payload (be_bytes 8 tx.gas),
  length-append tx'.payload (be_bytes 8 tx'.gas),
  length-be_bytes 8 tx.gas,
  length-be_bytes 8 tx'.gas,
)

-- What two transactions share that Hash does not tell apart, but for the signature.
abbrev pub SameFields : Transaction → ℤ → Transaction → ℤ → Type 0
SameFields tx amount tx' amount' =
    (tx.tx_type ≡ tx'.tx_type)
    × (tx.from ≡ tx'.from)
    × (tx.to ≡ tx'.to)
    × (abs amount ≡ abs amount')
    × (tx.nonce ≡ tx'.nonce)
    × (tx.payload ≡ tx'.payload)
    × (tx.gas ≡ tx'.gas)

-- Transactions whose amounts have equally many bytes are hashed from the same bytes only if they
-- agree in the type, the addresses, the magnitude of the amount, the nonce, the data and the gas.
pub hashed_bytes_separate :
    (tx tx' : Transaction) (amount amount' : ℤ)
    → IsSized tx
    → IsSized tx'
    → tx.amount ≡ some amount
    → tx'.amount ≡ some amount'
    → length (nat_bytes (abs amount)) ≡ length (nat_bytes (abs amount'))
    → hashed_bytes tx ≡ hashed_bytes tx'
    → SameFields tx amount tx' amount'
unfolding hashed_bytes
hashed_bytes_separate tx tx' amount amount' s s' a a' l e =
    let whole : some (laid_out tx amount) ≡ some (laid_out tx' amount') =
      rw (hashed_bytes, a, a') at e in
    let head : tx.tx_type % 256 ≡ tx'.tx_type % 256 = cc in
    let rest : fields tx amount ≡ fields tx' amount' = cc in
    let (from, rest1) = be_bytes_split 20 tx.from tx'.from _ _ s.1 s'.1 rest in
    let (to, rest2) = be_bytes_split 20 tx.to tx'.to _ _ s.2 s'.2 rest1 in
    let (value, rest3) =
      append_split (nat_bytes (abs amount)) (nat_bytes (abs amount')) _ _ l rest2 in
    let (nonce, rest4) = be_bytes_split 8 tx.nonce tx'.nonce _ _ s.3 s'.3 rest3 in
    let (payload, last) =
      append_split tx.payload tx'.payload _ _ (same_payload_length tx tx' rest4) rest4 in
    (
      omega (arith, head, s.0, s'.0),
      from,
      to,
      nat_bytes_injective (abs amount) (abs amount') value,
      nonce,
      payload,
      be_bytes_injective 8 tx.gas tx'.gas s.4 s'.4 last,
    )
