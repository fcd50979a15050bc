-- ===== src/Service/Layers.antt =====
-- The middleware of the service: src/service/layers.rs.
use mathlib.Core.Option
use tower_lsp.Base.{Option, none, some, true, ok}
use tower_lsp.JsonRpc.RequestId.{RequestId}
use tower_lsp.JsonRpc.Error.{Error, invalid_request_object, not_initialized_error}
use tower_lsp.JsonRpc.Request.{Request}
use tower_lsp.JsonRpc.Response.{Response, from_error}
use tower_lsp.JsonRpc.Router.{HandlerCall, finished, MethodHandler, call_handler}
use tower_lsp.JsonRpc.Router
use tower_lsp.Service.State.{State, uninitialized, initializing, initialized, shut_down, exited}
use tower_lsp.Service.Abort.{AbortApi}
use tower_lsp.Service.World.{World}
use tower_lsp.Service.Task.{Task, Called, done, running}
use tower_lsp.Service.Pending.{execute, cancel_all}

-- The error that a request meets in a state other than `initialized`.
unfoldable pub state_error : {Value : Type 0} → State → Error Value
state_error uninitialized = not_initialized_error
state_error initializing = not_initialized_error
state_error _ = invalid_request_object

unfoldable pub not_initialized_response :
    {Value : Type 0} → Option RequestId → State → Option (Response Value)
unfolding state_error
not_initialized_response none state = none
not_initialized_response (some id) state = some (from_error id (state_error state))

-- The future of a method handler of the backend.
unfoldable pub spawn : {Value H B R : Type 0} → HandlerCall Value B R → Task Value H B R
spawn (finished r) = done (ok r)
spawn (Router.running b ir id) = running b ir id

abbrev pub watch_initialize :
    {api : AbortApi} {Value B R : Type 0} → Called api Value B R → Called api Value B R
watch_initialize (w, fut) = (w, Task.initializing fut)

-- `Cancellable::call`, for the identifier of the request and the future of the inner service.
unfoldable pub track :
    {api : AbortApi} {Value B R : Type 0}
    → Option RequestId
    → Task Value api.Handle B R
    → World api
    → Called api Value B R
unfolding execute
track (some id) fut w = execute id fut w
track none fut w = (w, fut)

module _ {api : AbortApi} {Value P B R : Type 0} where
  unfoldable pub call_cancellable :
      MethodHandler Value P B R → Request Value → World api → Called api Value B R
  unfolding track spawn
  call_cancellable inner req w = track req.id (spawn (call_handler inner req)) w

  -- The layers branch on the state that they read.
  unfoldable pub initialize_in :
      State → MethodHandler Value P B R → Request Value → World api → Called api Value B R
  unfolding call_cancellable
  initialize_in uninitialized inner req w = watch_initialize (call_cancellable inner req w)
  initialize_in _ inner req w =
      (w, done (ok (Option.map (λ id. from_error id invalid_request_object) req.id)))

  unfoldable pub call_initialize :
      MethodHandler Value P B R → Request Value → World api → Called api Value B R
  unfolding initialize_in
  call_initialize inner req w = initialize_in w.state inner req w

  unfoldable pub shutdown_in :
      State → MethodHandler Value P B R → Request Value → World api → Called api Value B R
  unfolding call_cancellable not_initialized_response
  shutdown_in initialized inner req w = call_cancellable inner req (record w { state = shut_down })
  shutdown_in cur_state inner req w = (w, done (ok (not_initialized_response req.id cur_state)))

  unfoldable pub call_shutdown :
      MethodHandler Value P B R → Request Value → World api → Called api Value B R
  unfolding shutdown_in
  call_shutdown inner req w = shutdown_in w.state inner req w

  unfoldable pub normal_in :
      State → MethodHandler Value P B R → Request Value → World api → Called api Value B R
  unfolding call_cancellable not_initialized_response
  normal_in initialized inner req w = call_cancellable inner req w
  normal_in cur_state inner req w = (w, done (ok (not_initialized_response req.id cur_state)))

  unfoldable pub call_normal :
      MethodHandler Value P B R → Request Value → World api → Called api Value B R
  unfolding normal_in
  call_normal inner req w = normal_in w.state inner req w

-- What `ExitService::call` does to the shared state, in its order.
unfoldable pub leave : {api : AbortApi} → World api → World api
unfolding cancel_all
leave w = let w' = cancel_all (record w { state = exited }) in record w' { closed = true }

unfoldable pub call_exit : {api : AbortApi} {Value B R : Type 0} → World api → Called api Value B R
unfolding leave
call_exit w = (leave w, done (ok none))
