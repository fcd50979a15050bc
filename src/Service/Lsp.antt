-- ===== src/Service/Lsp.antt =====
-- `LspService`: src/service.rs. A call gives the world behind it and a future; the world moves on
-- before the future is polled, and polls of other futures come between.
use tower_lsp.Base.{ok, err, Result, if◌then◌else◌, ◌==◌}
use tower_lsp.JsonRpc.RequestId.{RequestId, NumberOrString}
use tower_lsp.JsonRpc.Json.{Json}
use tower_lsp.JsonRpc.Request.{Request}
use tower_lsp.JsonRpc.Router.{
  Router, Routed, MethodHandler, HandlerCall, finished, not_found, call_handler, route,
}
use tower_lsp.JsonRpc.Router
use tower_lsp.Service.State.{State, initializing, exited, State_eq}
use tower_lsp.Service.Abort.{AbortApi}
use tower_lsp.Service.World.{World}
use tower_lsp.Service.Task.{
  Task, Called, Poll, pending, ready, ExitedError, exited_error, done, cancelling, filtering,
}
use tower_lsp.Service.Layers.{call_initialize, call_shutdown, call_normal, call_exit}

pub data Layer : Type 0 where
  initialize shutdown normal : Layer

-- `BoxService::new(layer.layer(handler))`, for the layers that the program uses.
pub data BoxService (Value P B R : Type 0) : Type 0 where
  layered : Layer → MethodHandler Value P B R → BoxService Value P B R
  -- `$/cancelRequest`, behind the identity layer; its future cancels an identifier
  plain : MethodHandler Value NumberOrString RequestId (Unit {0}) → BoxService Value P B R
  -- the `exit` layer drops its handler
  exit : BoxService Value P B R

-- The future of the handler of `$/cancelRequest`.
unfoldable pub spawn_cancel :
    {Value H B R : Type 0} → HandlerCall Value RequestId (Unit {0}) → Task Value H B R
spawn_cancel (finished r) = done (ok r)
spawn_cancel (Router.running target ir id) = cancelling target ir id

module _ {api : AbortApi} {Value P B R : Type 0} where
  unfoldable pub call_service :
      BoxService Value P B R → Request Value → World api → Called api Value B R
  unfolding spawn_cancel
  call_service (layered initialize h) req w = call_initialize h req w
  call_service (layered shutdown h) req w = call_shutdown h req w
  call_service (layered normal h) req w = call_normal h req w
  call_service (plain h) req w = (w, spawn_cancel (call_handler h req))
  call_service exit req w = call_exit w

  unfoldable pub call_routed :
      Routed Value (BoxService Value P B R) → Request Value → World api → Called api Value B R
  unfolding call_service
  call_routed (Router.service s) req w = call_service s req w
  call_routed (not_found res) req w = (w, done (ok res))

abbrev pub watch_call :
    {api : AbortApi} {Value B R : Type 0} → Called api Value B R → Called api Value B R
watch_call (w, fut) = (w, filtering fut)

module _ (json : Json) {api : AbortApi} {S P B R : Type 0} where
  open json use {Value}

  unfoldable pub call :
      Router S (BoxService Value P B R) → Request Value → World api → Called api Value B R
  unfolding call_routed
  call router req w =
      if w.state == exited
      then (w, done (err exited_error))
      else watch_call (call_routed (route json router req) req w)

unfoldable pub poll_ready : State → Poll (Unit {0}) (Result (Unit {0}) ExitedError)
poll_ready initializing = pending tt
poll_ready exited = ready (err exited_error)
poll_ready _ = ready (ok tt)
