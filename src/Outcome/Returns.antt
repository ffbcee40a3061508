-- ===== src/Outcome/Returns.antt =====
-- Handlers that never panic, and how one that is put together never does.
use zkrollup_go.Base.{◌≢◌, refl, Bool, true, false, if◌then◌else◌}
use zkrollup_go.Outcome.{
  M, Error, Outcome, ok, err, panic, pure, gets, modify, raise_if, ◌>>=◌, ◌>>◌,
}
use zkrollup_go.Outcome.Frame.{Leaves}

-- From every state, a run ends with a value or an error.
pub record Returns {S A : Type 0} (m : M S A) : Type 0 where
  pub run : (q : S) → m q ≢ panic

module _ {S : Type 0} where
  pub bind_Returns :
      {A B : Type 0} {m : M S A} {next : A → M S B}
      → Returns m
      → ((result : A) → Returns (next result))
      → Returns (m >>= next)
  bind_Returns {A} {B} {m} {next} h k = record { run = λ q. go (m q) (h.run q) }
    where
      go :
          (r : Outcome S A)
          → r ≢ panic
          → elim r [ ok a q ↦ next a q | err e q ↦ err e q | panic ↦ panic ] ≢ panic
      go (ok a q) hr = (k a).run q
      go (err e q) hr = λ e. cc
      go panic hr = absurd (hr refl)

  pub then_Returns :
      {A B : Type 0} {m : M S A} {k : M S B} → Returns m → Returns k → Returns (m >> k)
  then_Returns h hk = bind_Returns h (λ _. hk)

  pub pure-Returns : {A : Type 0} {a : A} → Returns {S = S} (pure a)
  pure-Returns = record { run = λ q e. cc }

  pub gets-Returns : {A : Type 0} {f : S → A} → Returns (gets f)
  gets-Returns = record { run = λ q e. cc }

  pub modify-Returns : {f : S → S} → Returns (modify f)
  modify-Returns = record { run = λ q e. cc }

  pub raise_if-Returns : (b : Bool) (e : Error) → Returns {S = S} (raise_if b e)
  raise_if-Returns true e = record { run = λ q e. cc }
  raise_if-Returns false e = record { run = λ q e. cc }

  pub if_Returns :
      {A : Type 0} (b : Bool) {m k : M S A} → Returns m → Returns k → Returns (if b then m else k)
  if_Returns true hm hk = hm
  if_Returns false hm hk = hk

pub ruleset returns = (
  bind_Returns, then_Returns, pure-Returns, gets-Returns, modify-Returns, raise_if-Returns,
  if_Returns,
)

-- A run that leaves a state with the predicate, whether by a value or by an error.
abbrev pub Reaches : {S A : Type 0} → (S → Type 0) → Outcome S A → Type 0
Reaches P (ok _ q) = P q
Reaches P (err _ q) = P q
Reaches P panic = ⊥

pub Leaves-Reaches :
    {S A : Type 0} (P : S → Type 0) (r : Outcome S A) → Leaves P r → r ≢ panic → Reaches P r
Leaves-Reaches P (ok _ q) h e = h
Leaves-Reaches P (err _ q) h e = h
Leaves-Reaches P panic h e = e refl

pub Reaches-weaken :
    {S A : Type 0} {P Q : S → Type 0} (r : Outcome S A)
    → ((q : S) → P q → Q q)
    → Reaches P r
    → Reaches Q r
Reaches-weaken (ok _ q) f h = f q h
Reaches-weaken (err _ q) f h = f q h
Reaches-weaken panic f h = h

-- A run that ends with a value and a state for which R holds, or with an error and a state for which
-- P holds.
abbrev pub Yields : {S A : Type 0} → (A → S → Type 0) → (S → Type 0) → Outcome S A → Type 0
Yields R P (ok a q) = R a q
Yields R P (err _ q) = P q
Yields R P panic = ⊥

pub Yields-Reaches :
    {S A : Type 0} (P : S → Type 0) (r : Outcome S A) → Yields (λ _. P) P r → Reaches P r
Yields-Reaches P (ok a q) h = h
Yields-Reaches P (err _ q) h = h
Yields-Reaches P panic h = h

pub Reaches-Yields :
    {S A : Type 0} (P : S → Type 0) (r : Outcome S A) → Reaches P r → Yields (λ _. P) P r
Reaches-Yields P (ok a q) h = h
Reaches-Yields P (err _ q) h = h
Reaches-Yields P panic h = h

pub bind_Yields :
    {S A B : Type 0} {R : A → S → Type 0} (Q : B → S → Type 0) (P : S → Type 0) (m : M S A)
    (f : A → M S B) (q : S)
    → Yields R P (m q)
    → ((a : A) (q' : S) → R a q' → Yields Q P (f a q'))
    → Yields Q P ((m >>= f) q)
bind_Yields {S} {A} {B} {R} Q P m f q h k = go (m q) h
  where
    go :
        (r : Outcome S A)
        → Yields R P r
        → Yields Q P (elim r [ ok a q' ↦ f a q' | err e q' ↦ err e q' | panic ↦ panic ])
    go (ok a q') h = k a q' h
    go (err e q') h = h
    go panic h = absurd h

pub bind_Reaches :
    {S A B : Type 0} {R : A → S → Type 0} (P : S → Type 0) (m : M S A) (f : A → M S B) (q : S)
    → Yields R P (m q)
    → ((a : A) (q' : S) → R a q' → Reaches P (f a q'))
    → Reaches P ((m >>= f) q)
bind_Reaches P m f q h k =
    Yields-Reaches P ((m >>= f) q)
      (bind_Yields (λ _. P) P m f q h (λ a q' r. Reaches-Yields P (f a q') (k a q' r)))

-- A run that leaves a state with both predicates, or fails with what the first one gives.
pub Yields-both :
    {S A : Type 0} (P Q E : S → Type 0) (r : Outcome S A)
    → ((q : S) → P q → E q)
    → Reaches P r
    → Leaves Q r
    → Yields (λ _ q. P q × Q q) E r
Yields-both P Q E (ok a q) f h hq = (h, hq)
Yields-both P Q E (err _ q) f h hq = f q h
Yields-both P Q E panic f h hq = h

pub Yields-weaken :
    {S A : Type 0} (R R' : A → S → Type 0) (P : S → Type 0) (r : Outcome S A)
    → ((a : A) (q : S) → R a q → R' a q)
    → Yields R P r
    → Yields R' P r
Yields-weaken R R' P (ok a q) f h = f a q h
Yields-weaken R R' P (err _ q) f h = h
Yields-weaken R R' P panic f h = h
