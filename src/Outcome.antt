-- ===== src/Outcome.antt =====
-- What a Go call that may fail does to the object that it works on. What was written before an
-- error stays written, so the state comes back beside the error; a nil dereference or an index out
-- of range ends the process.
pub mod Frame
pub mod Returns
use zkrollup_go.Base.{◌≡◌, Bool, true, false, Option, none, some}

-- The errors that the modelled methods return, named after their texts.
pub data Error : Type 0 where
  insufficient_balance contract_not_found invalid_nonce gas_required bytecode_required : Error
  unknown_type account_not_found broadcast_failed not_leader empty_message malformed_message : Error
  wrong_view unknown_batch wrong_phase no_participants ceremony_failed no_ceremony : Error
  not_our_turn wrong_epoch wrong_step bad_contribution file_failed not_completed : Error
  marshal_failed invalid_address peer_info_failed connect_failed disconnect_failed : Error
  invalid_key sign_failed bad_signature : Error
  dial_failed contract_failed no_contract nonce_failed gas_price_failed transactor_failed : Error
  deploy_failed submit_failed verify_failed contract_call_failed bad_crs no_entropy bad_point :
      Error
  host_failed dht_failed bootstrap_failed close_failed : Error
  contract_required request_failed bad_status bad_reply rpc_failed prover_failed : Error
  key_required bad_key invalid_amount unknown_action : Error

pub data Outcome (S A : Type 0) : Type 0 where
  ok : A → S → Outcome S A
  err : Error → S → Outcome S A
  panic : Outcome S A

abbrev pub M : Type 0 → Type 0 → Type 0
M S A = S → Outcome S A

module _ {S A : Type 0} where
  abbrev pub pure : A → M S A
  pure a s = ok a s

  abbrev pub raise : Error → M S A
  raise e s = err e s

  abbrev pub gets : (S → A) → M S A
  gets f s = ok (f s) s

  -- A value beside an error: `none` is the error.
  abbrev pub or_raise : Error → Option A → M S A
  or_raise e none s = err e s
  or_raise e (some a) s = ok a s

  -- A value that may be nil, where it is dereferenced.
  abbrev pub or_panic : Option A → M S A
  or_panic none s = panic
  or_panic (some a) s = ok a s

infixl 5 ◌>>=◌ ◌>>◌
abbrev pub ◌>>=◌ : {S A B : Type 0} → M S A → (A → M S B) → M S B
◌>>=◌ m f s = elim (m s) [ ok a s' ↦ f a s' | err e s' ↦ err e s' | panic ↦ panic ]

abbrev pub ◌>>◌ : {S A B : Type 0} → M S A → M S B → M S B
m >> k = m >>= λ _. k

abbrev pub raise_if : {S : Type 0} → Bool → Error → M S (Unit {0})
raise_if true e s = err e s
raise_if false e s = ok tt s

abbrev pub modify : {S : Type 0} → (S → S) → M S (Unit {0})
modify f s = ok tt (f s)

-- An update that may dereference nil.
abbrev pub update_or_panic : {S : Type 0} → (S → Option S) → M S (Unit {0})
update_or_panic f s = elim (f s) [ none ↦ panic | some s' ↦ ok tt s' ]

module _ {S A B : Type 0} (s : S) (m : M S A) (f : A → M S B) where
  pub bind_ok : (a : A) (s' : S) → m s ≡ ok a s' → (m >>= f) s ≡ f a s'
  bind_ok a s' e = rw (e, ◌>>=◌)

  pub bind_err : (e : Error) (s' : S) → m s ≡ err e s' → (m >>= f) s ≡ err e s'
  bind_err e s' h = rw (h, ◌>>=◌)

  pub bind_panic : m s ≡ panic → (m >>= f) s ≡ panic
  bind_panic h = rw (h, ◌>>=◌)
