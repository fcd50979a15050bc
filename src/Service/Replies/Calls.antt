-- ===== src/Service/Replies/Calls.antt =====
-- The futures that the layers hand out answer the request that was called: src/service/layers.rs
-- and src/service.rs.

use tower_lsp.Base.{refl, ◌≢◌, inl, inr, Option, none, some, Option-cases, String_eq}
use tower_lsp.Base.Map.{get}
use tower_lsp.JsonRpc.RequestId.{RequestId, Id_eq}
use tower_lsp.JsonRpc.Request.{Request}
use tower_lsp.JsonRpc.Response.{from_error}
use tower_lsp.JsonRpc.Router.{
  Router, MethodHandler, HandlerCall, finished, call_handler, route, method_not_found_response,
}
use tower_lsp.JsonRpc.Router
use tower_lsp.JsonRpc.Router.Calls.{
  Answers, IsAnswering, CallOutcome, call_handler_outcome, error_Answers,
}
use tower_lsp.Service.State.{State, uninitialized, initialized}
use tower_lsp.Service.Abort.{AbortApi}
use tower_lsp.Service.World.{World}
use tower_lsp.Service.Task.{Task}
use tower_lsp.Service.Pending.{execute}
use tower_lsp.Service.Layers.{
  spawn, track, call_cancellable, initialize_in, shutdown_in, normal_in, call_initialize,
  call_shutdown, call_normal, not_initialized_response,
}
use tower_lsp.Service.Lsp.{
  BoxService, layered, plain, exit, initialize, shutdown, normal, call_service, spawn_cancel,
}
use tower_lsp.Service.Replies.{Fits}

state_Answers :
    (Value : Type 0) (id : Option RequestId) (s : State)
    → Answers {Value = Value} id (not_initialized_response id s)
unfolding not_initialized_response from_error
state_Answers Value none s = tt
state_Answers Value (some i) s = refl

spawn-Fits :
    {Value P B R : Type 0} (H : Type 0) (h : MethodHandler Value P B R) (req : Request Value)
    (c : HandlerCall Value B R)
    → IsAnswering h.response
    → CallOutcome h req c
    → Fits req.id (spawn {H = H} c)
unfolding spawn
spawn-Fits H h req (finished r) good o = o
spawn-Fits H h req (Router.running b ir id) good (same, ir_same, _) = (same, rw ir_same good)

spawn_cancel-Fits :
    {Value P : Type 0} (H B R : Type 0) (h : MethodHandler Value P RequestId (Unit {0}))
    (req : Request Value) (c : HandlerCall Value RequestId (Unit {0}))
    → IsAnswering h.response
    → CallOutcome h req c
    → Fits req.id (spawn_cancel {H = H} {B = B} {R = R} c)
unfolding spawn_cancel
spawn_cancel-Fits H B R h req (finished r) good o = o
spawn_cancel-Fits H B R h req (Router.running b ir id) good (same, ir_same, _) =
    (same, rw ir_same good)

-- The instance that a service answers by turns each result into an answer.
abbrev pub IsGood : {Value P B R : Type 0} → BoxService Value P B R → Type 0
IsGood (layered l h) = IsAnswering h.response
IsGood (plain h) = IsAnswering h.response
IsGood exit = Unit

module _ {api : AbortApi} {Value B R : Type 0} where
  track-Fits :
      (id : Option RequestId) (t : Task Value api.Handle B R) (w : World api)
      → Fits id t
      → Fits id (track id t w).1
  unfolding track from_error
  track-Fits none t w f = f
  track-Fits (some id) t w f = elim (Option-cases (get id w.pending)) [
    | inl free ↦ rw (free, execute) (refl, f)
    | inr (h, taken) ↦ rw (taken, execute) refl
  ]

  module _ {P : Type 0} (h : MethodHandler Value P B R) (req : Request Value)
      (good : IsAnswering h.response) where
    call_cancellable-Fits : (w : World api) → Fits req.id (call_cancellable h req w).1
    unfolding call_cancellable
    call_cancellable-Fits w =
        track-Fits req.id _ w (spawn-Fits _ h req _ good (call_handler_outcome h req))

    initialize_in-Fits : (s : State) (w : World api) → Fits req.id (initialize_in s h req w).1
    unfolding initialize_in
    initialize_in-Fits uninitialized w = call_cancellable-Fits w
    initialize_in-Fits _ w = error_Answers _ req.id

    shutdown_in-Fits : (s : State) (w : World api) → Fits req.id (shutdown_in s h req w).1
    unfolding shutdown_in
    shutdown_in-Fits initialized w = call_cancellable-Fits _
    shutdown_in-Fits s w = state_Answers Value req.id _

    normal_in-Fits : (s : State) (w : World api) → Fits req.id (normal_in s h req w).1
    unfolding normal_in
    normal_in-Fits initialized w = call_cancellable-Fits w
    normal_in-Fits s w = state_Answers Value req.id _

  -- Every service but `exit` hands out a future that answers the request.
  pub call_service-Fits :
      {P : Type 0} (s : BoxService Value P B R) (req : Request Value) (w : World api)
      → IsGood s
      → s ≢ exit
      → Fits req.id (call_service s req w).1
  unfolding call_service call_initialize call_shutdown call_normal
  call_service-Fits (layered initialize h) req w good e = initialize_in-Fits h req good w.state w
  call_service-Fits (layered shutdown h) req w good e = shutdown_in-Fits h req good w.state w
  call_service-Fits (layered normal h) req w good e = normal_in-Fits h req good w.state w
  call_service-Fits (plain h) req w good e =
      spawn_cancel-Fits _ _ _ h req _ good (call_handler_outcome h req)
  call_service-Fits exit req w good e = absurd (e refl)
