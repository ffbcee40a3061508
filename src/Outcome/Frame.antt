-- ===== src/Outcome/Frame.antt =====
-- What a handler preserves, whether it succeeds or fails, and how a handler that is put together
-- preserves it. (A panic ends the process and leaves no state.)
use zkrollup_go.Base.{◌≡◌, ◌≢◌, refl, Bool, true, false, Option, none, some, if◌then◌else◌}
use zkrollup_go.Outcome.{
  M, Error, Outcome, ok, err, panic, pure, raise, gets, modify, raise_if, or_raise, or_panic, ◌>>=◌,
  ◌>>◌,
}

-- The state at the end of a run.
abbrev pub Leaves : {S A : Type 0} → (S → Type 0) → Outcome S A → Type 0
Leaves P (ok _ q) = P q
Leaves P (err _ q) = P q
Leaves P panic = Unit

-- From a state with the predicate, a run leaves one.
pub record Keeps {S A : Type 0} (P : S → Type 0) (m : M S A) : Type 0 where
  pub run : (q : S) → P q → Leaves P (m q)

module _ {S : Type 0} (P : S → Type 0) where
  pub bind_Keeps :
      {A B : Type 0} {m : M S A} {next : A → M S B}
      → Keeps P m
      → ((result : A) → Keeps P (next result))
      → Keeps P (m >>= next)
  bind_Keeps {A} {B} {m} {next} h k = record { run = λ q hq. go (m q) (h.run q hq) }
    where
      go :
          (r : Outcome S A)
          → Leaves P r
          → Leaves P (elim r [ ok a q ↦ next a q | err e q ↦ err e q | panic ↦ panic ])
      go (ok a q) hr = (k a).run q hr
      go (err e q) hr = hr
      go panic hr = tt

  pub then_Keeps : {A B : Type 0} {m : M S A} {k : M S B} → Keeps P m → Keeps P k → Keeps P (m >> k)
  then_Keeps h hk = bind_Keeps h (λ _. hk)

  pub pure-Keeps : {A : Type 0} {a : A} → Keeps P (pure a)
  pure-Keeps = record { run = λ q h. h }

  pub raise-Keeps : {A : Type 0} {e : Error} → Keeps P (raise {A = A} e)
  raise-Keeps = record { run = λ q h. h }

  pub gets-Keeps : {A : Type 0} {f : S → A} → Keeps P (gets f)
  gets-Keeps = record { run = λ q h. h }

  pub raise_if-Keeps : (b : Bool) (e : Error) → Keeps P (raise_if b e)
  raise_if-Keeps true e = record { run = λ q h. h }
  raise_if-Keeps false e = record { run = λ q h. h }

  pub or_raise-Keeps : {A : Type 0} (e : Error) (o : Option A) → Keeps P (or_raise e o)
  or_raise-Keeps e none = record { run = λ q h. h }
  or_raise-Keeps e (some a) = record { run = λ q h. h }

  pub or_panic-Keeps : {A : Type 0} (o : Option A) → Keeps P (or_panic o)
  or_panic-Keeps none = record { run = λ q h. tt }
  or_panic-Keeps (some a) = record { run = λ q h. h }

  pub modify-Keeps : {f : S → S} → ((q : S) → P q → P (f q)) → Keeps P (modify f)
  modify-Keeps h = record { run = h }

  pub if_Keeps :
      {A : Type 0} (b : Bool) {m k : M S A} → Keeps P m → Keeps P k → Keeps P (if b then m else k)
  if_Keeps true hm hk = hm
  if_Keeps false hm hk = hk

pub ruleset keeps = (
  bind_Keeps, then_Keeps, pure-Keeps, raise-Keeps, gets-Keeps, raise_if-Keeps, or_raise-Keeps,
  or_panic-Keeps, modify-Keeps, if_Keeps,
)

-- A weaker predicate is left where a stronger one is.
pub Leaves-weaken :
    {S A : Type 0} {P Q : S → Type 0} (r : Outcome S A)
    → ((q : S) → P q → Q q)
    → Leaves P r
    → Leaves Q r
Leaves-weaken (ok _ q) f h = f q h
Leaves-weaken (err _ q) f h = f q h
Leaves-weaken panic f h = tt

-- A run ends in the state `q`, with a value or an error.
abbrev pub Ends : {S A : Type 0} → Outcome S A → S → Type 0
Ends r q = Leaves (λ s. s ≡ q) r × (r ≢ panic)

pub Leaves-end :
    {S A : Type 0} (P : S → Type 0) (r : Outcome S A) (q : S) → Leaves P r → Ends r q → P q
Leaves-end P (ok _ s) q h e = rw⁻¹ (e.0) h
Leaves-end P (err _ s) q h e = rw⁻¹ (e.0) h
Leaves-end P panic q h e = absurd (e.1 refl)
