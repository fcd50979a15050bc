-- ===== src/JsonRpc/Router/Calls.antt =====
-- What a method handler does with a request: src/jsonrpc/router.rs.
use mathlib.Core.Option
use tower_lsp.Base.{
  String, ◌>>=◌, ◌≡◌, refl, ◌⊎◌, inl, inr, Bool, true, false, not, Option, none, some, is_some,
  Result, ok, err,
}
use tower_lsp.JsonRpc.RequestId.{RequestId}
use tower_lsp.JsonRpc.Error.{Error}
use tower_lsp.JsonRpc.Request.{Request}
use tower_lsp.JsonRpc.Response.{Response, from_parts, from_error}
use tower_lsp.JsonRpc.Router.{
  MethodHandler, IntoResponse, HandlerCall, finished, running, call_handler, start_handler,
  unit_response, result_response, kind_mismatch, serialize_result,
}

module _ {Value : Type 0} where
  -- A request is answered, under its identifier; a notification is not answered.
  abbrev pub Answers : Option RequestId → Option (Response Value) → Type 0
  Answers none none = Unit
  Answers none (some r) = ⊥
  Answers (some i) none = ⊥
  Answers (some i) (some r) = r.id ≡ i

  -- An instance that turns each result into an answer.
  pub record IsAnswering {R : Type 0} (ir : IntoResponse Value R) : Type 0 where
    pub answers : (r : R) (id : Option RequestId) → Answers id (ir.into_response r id)

  pub error_Answers :
      (e : Error Value) (id : Option RequestId) → Answers id (Option.map (λ i. from_error i e) id)
  unfolding from_error
  error_Answers e none = tt
  error_Answers e (some i) = refl

  pub unit_response-IsAnswering : IsAnswering (unit_response {Value = Value})
  unfolding unit_response
  unit_response-IsAnswering = record { answers = λ r id. error_Answers _ id }

  id-from_parts : (i : RequestId) (body : Result Value (Error Value)) → (from_parts i body).id ≡ i
  unfolding from_parts
  id-from_parts i (ok v) = refl
  id-from_parts i (err e) = refl

  result_Answers :
      {A : Type 0} (f : A → Result Value (Error Value)) (r : Result A (Error Value))
      (id : Option RequestId)
      → Answers id (Option.map (λ i. from_parts i (r >>= f)) id)
  result_Answers f r none = tt
  result_Answers f r (some i) = id-from_parts i (r >>= f)

  pub result_response-IsAnswering :
      {A : Type 0} (to_value : A → Result Value String) → IsAnswering (result_response to_value)
  unfolding result_response
  result_response-IsAnswering to_value = record {
    answers = λ r id. result_Answers (serialize_result to_value) r id;
  }

  kind_mismatch-cases :
      (id : Option RequestId) (n : Bool)
      → ((kind_mismatch {Value = Value} id n ≡ none) × (n ≡ not (is_some id)))
        ⊎ ((r : Option (Response Value)) × (kind_mismatch id n ≡ some r) × Answers id r)
  unfolding kind_mismatch from_error
  kind_mismatch-cases (some i) true = inr (_, refl, refl)
  kind_mismatch-cases none false = inr (none, refl, tt)
  kind_mismatch-cases (some i) false = inl (refl, refl)
  kind_mismatch-cases none true = inl (refl, refl)

  module _ {P F R : Type 0} (h : MethodHandler Value P F R) (req : Request Value) where
    -- What a call may end in: an answer to the request, or the handler's future, which is run
    -- with the handler's own instance and the request's identifier, and only where the presence
    -- of the identifier fits the kind of the handler.
    abbrev pub CallOutcome : HandlerCall Value F R → Type 0
    CallOutcome (finished r) = Answers req.id r
    CallOutcome (running fut ir id) =
        (id ≡ req.id) × (ir ≡ h.response) × (h.response.is_notification ≡ not (is_some req.id))

    start_handler_outcome :
        (read : Result P (Error Value))
        → h.response.is_notification ≡ not (is_some req.id)
        → CallOutcome (start_handler h req.id read)
    unfolding start_handler
    start_handler_outcome (ok p) e = (refl, refl, e)
    start_handler_outcome (err er) e = error_Answers er req.id

    -- Every call of a method handler ends in an answer to its request, or in the handler's future
    -- with the handler's own result instance and the request's identifier; the latter only where
    -- a request meets a request handler or a notification meets a notification handler.
    pub call_handler_outcome : CallOutcome (call_handler h req)
    unfolding call_handler
    call_handler_outcome = elim (kind_mismatch-cases req.id h.response.is_notification) [
      | inl (e, fits) ↦
          rw (e, call_handler) (start_handler_outcome (h.params.from_params req.params) fits)
      | inr (r, e, a) ↦ rw (e, call_handler) a
    ]
