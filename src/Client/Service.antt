-- ===== src/Client/Service.antt =====
-- cmd/evm/main.go against pkg/rpc/server.go: a client whose requests go to the server of a sequencer.
use zkrollup_go.Base.{◌≡◌, refl, ℕ, List, Option, none, some, Bool, true, false, map, string_eq}
use zkrollup_go.Base.Int.{ℤ}
use zkrollup_go.Outcome.{M, Outcome, ok, err, panic, rpc_failed, ◌>>=◌}
use zkrollup_go.Sequencer.{Sequencer}
use zkrollup_go.Rpc.{
  JsonRpcRequest, Response, Result, ErrorText, nonce_result, hash_result, http_error, result, error,
  handle_rpc,
}
use zkrollup_go.Rpc.Params.{Fields, Library, Value, text, float, other}
use zkrollup_go.Client.{Params, texts, objects, RpcRequest, RpcResponse, Json, is_some, call}

-- What the server is given for the bytes of a request, and the bytes of its responses.
pub record Wire : Type 0 where
  pub decode : List ℕ → Bool × JsonRpcRequest
  pub encode : Response → List ℕ

abbrev pub status : Response → ℕ
status (http_error code) = code
status (result id r) = 200
status (error id code message) = 200

abbrev pub served : Wire → Outcome Sequencer Response → Outcome Sequencer (Option (ℕ × List ℕ))
served wire (ok response q) = ok (some (status response, wire.encode response)) q
served wire (err e q) = ok none q
served wire panic = panic

-- a number of the client as the server's JSON reads it
abbrev pub read_value : {F : Type 0} → (ℕ → F) → Value ℕ → Value F
read_value to_float (text t) = text t
read_value to_float (float n) = float (to_float n)
read_value to_float other = other

abbrev pub read_fields : {F : Type 0} → (ℕ → F) → Fields ℕ → Fields F
read_fields to_float = map (λ field. (field.0, read_value to_float field.1))

module _ {F : Type 0} (lib : Library F) where
  abbrev pub post : Wire → List ℕ → M Sequencer (Option (ℕ × List ℕ))
  post wire body q = served wire (handle_rpc lib "POST" (wire.decode body) q)

  -- The server reads the parameters that the client wrote.
  abbrev ReadsParams : (ℕ → F) → Params → List ℕ → Type 0
  ReadsParams to_float (texts ts) params = lib.strings params ≡ some ts
  ReadsParams to_float (objects os) params =
      lib.objects params ≡ some (map (read_fields to_float) os)

module _ (json : Json) where
  -- The client reads a result or an error for what the server meant.
  abbrev ReadsResult : Result → List ℕ → Type 0
  ReadsResult (nonce_result nonce) bytes = json.unmarshal_nonce bytes ≡ some nonce
  ReadsResult (hash_result digits) bytes = json.unmarshal_hash bytes ≡ some digits
  ReadsResult _ bytes = Unit

  abbrev pub Replies : Response → RpcResponse → Type 0
  Replies (http_error code) response = Unit
  Replies (result id r) response = (response.error ≡ none) × ReadsResult r response.result
  Replies (error id code message) response = is_some response.error ≡ true

module _ {F : Type 0} (lib : Library F) (to_float : ℕ → F) (json : Json) (wire : Wire) where
  -- A request of the client is written as the body, which the server decodes.
  abbrev pub Carries : RpcRequest → List ℕ → JsonRpcRequest → Type 0
  Carries req body received =
      (json.marshal req ≡ some body)
      × (wire.decode body ≡ (false, received))
      × (received.method ≡ req.method)
      × ReadsParams lib to_float req.params received.params

  module _ (req : RpcRequest) (body : List ℕ) (received : JsonRpcRequest) (q : Sequencer)
      (carries : Carries req body received) where
    -- a call that the server answers with a result
    pub call_result :
        {A : Type 0} (unmarshal : List ℕ → Option A) (id : List ℕ) (r : Result) (a : A)
        (reply : RpcResponse) (q' : Sequencer)
        → handle_rpc lib "POST" (false, received) q ≡ ok (result id r) q'
        → json.unmarshal (wire.encode (result id r)) ≡ some reply
        → reply.error ≡ none
        → unmarshal reply.result ≡ some a
        → call json (post lib wire) req unmarshal q ≡ ok a q'
    unfolding call
    call_result unmarshal id r a reply q' handled replied no_error read =
        rw (call, carries.0, post, ◌>>=◌, carries.1, handled, replied, no_error, read) refl

    -- a call that the server answers with an error
    pub call_error :
        {A : Type 0} (unmarshal : List ℕ → Option A) (id : List ℕ) (code : ℤ) (message : ErrorText)
        (reply : RpcResponse) (q' : Sequencer)
        → handle_rpc lib "POST" (false, received) q ≡ ok (error id code message) q'
        → json.unmarshal (wire.encode (error id code message)) ≡ some reply
        → is_some reply.error ≡ true
        → call json (post lib wire) req unmarshal q ≡ err rpc_failed q'
    unfolding call
    call_error unmarshal id code message reply q' handled replied has_error =
        rw (call, carries.0, post, ◌>>=◌, carries.1, handled, replied, has_error) refl

    -- a call that ends the server's handler
    pub call_panic :
        {A : Type 0} (unmarshal : List ℕ → Option A)
        → handle_rpc lib "POST" (false, received) q ≡ panic
        → call json (post lib wire) req unmarshal q ≡ panic
    unfolding call
    call_panic unmarshal handled = rw (call, carries.0, post, ◌>>=◌, carries.1, handled) refl
