-- ===== src/Service/Replies.antt =====
-- What the future of a call ends in, whatever the world does between its polls: src/service.rs and
-- src/service/layers.rs.
pub mod Calls
pub mod Driven
pub mod Filter
use mathlib.Core.Option
use tower_lsp.Base.{
  String, ◌≡◌, refl, ap, sym, ◌≢◌, inl, inr, Bool, true, false, List, [], ◌∷◌, Option, none, some,
  arith, Result, ok, err, Option-cases, Bool-cases, String_eq, eq_iff,
}
use tower_lsp.Base.Map.{get}
use tower_lsp.JsonRpc.RequestId.{RequestId}
use tower_lsp.JsonRpc.Json.{Json}
use tower_lsp.JsonRpc.Error.{invalid_request_object}
use tower_lsp.JsonRpc.Request.{Request}
use tower_lsp.JsonRpc.Response.{Response, from_error}
use tower_lsp.JsonRpc.Router.{
  Router, IntoResponse, MethodHandler, HandlerCall, finished, call_handler, route,
  method_not_found_response,
}
use tower_lsp.JsonRpc.Router.Calls.{Answers, IsAnswering, CallOutcome, call_handler_outcome}
use tower_lsp.Service.State.{uninitialized, initialized, State_eq}
use tower_lsp.Service.Abort.{AbortApi}
use tower_lsp.Service.World.{World}
use tower_lsp.Service.Task.{
  Task, Outcome, Poll, Polled, Called, pending, ready, done, running, cancelling, abortable,
  initializing, filtering,
}
use tower_lsp.Service.Pending.{execute, aborted_outcome}
use tower_lsp.Service.Polling.{poll, after_abortable, after_initialize, after_call, filter_response}
use tower_lsp.Service.Layers.{
  spawn, call_cancellable, call_initialize, call_shutdown, call_normal, call_exit,
  not_initialized_response,
}
use tower_lsp.Service.Lsp.{BoxService, layered, plain, exit, call, call_service, spawn_cancel}

module _ {Value : Type 0} (oid : Option RequestId) where
  abbrev pub OutcomeFits : Outcome Value → Type 0
  OutcomeFits (ok res) = Answers oid res
  OutcomeFits (err e) = Unit

  -- A future, as the layers build it, whose end answers the request with identifier `oid`.
  abbrev pub Fits : {H B R : Type 0} → Task Value H B R → Type 0
  Fits (done o) = OutcomeFits o
  Fits (running b ir id) = (id ≡ oid) × IsAnswering ir
  Fits (cancelling target ir id) = (id ≡ oid) × IsAnswering ir
  Fits (abortable h id t) = (oid ≡ some id) × Fits t
  Fits (initializing t) = Fits t
  Fits (filtering t) = ⊥

  abbrev pub PollFits : {H B R : Type 0} → Poll (Task Value H B R) (Outcome Value) → Type 0
  PollFits (pending t) = Fits t
  PollFits (ready o) = OutcomeFits o

aborted_fits :
    (Value : Type 0) (oid : Option RequestId) (id : RequestId)
    → oid ≡ some id
    → OutcomeFits {Value = Value} oid (aborted_outcome id)
unfolding aborted_outcome from_error
aborted_fits Value oid id e = rw e refl

module _ (json : Json) (api : AbortApi) {B R : Type 0} (oid : Option RequestId) where
  open json use {Value}

  after_abortable-Fits :
      (h : api.Handle) (id : RequestId) (p : Polled api Value B R)
      → oid ≡ some id
      → PollFits oid p.1
      → PollFits oid (after_abortable json api h id p).1
  unfolding after_abortable
  after_abortable-Fits h id (w, pending t) e f = (e, f)
  after_abortable-Fits h id (w, ready o) e f = f

  after_initialize-Fits :
      (p : Polled api Value B R) → PollFits oid p.1 → PollFits oid (after_initialize json api p).1
  unfolding after_initialize
  after_initialize-Fits (w, pending t) f = f
  after_initialize-Fits (w, ready (ok res)) f = f
  after_initialize-Fits (w, ready (err e)) f = f

  -- One poll, in any world, of a future that answers `oid` leaves such a future, or its answer.
  poll-Fits :
      (answer : Option R) (w : World api) (t : Task Value api.Handle B R)
      → Fits oid t
      → PollFits oid (poll json api answer w t).1
  unfolding poll
  poll-Fits answer w (done o) f = f
  poll-Fits none w (running b ir id) f = f
  poll-Fits (some r) w (running b ir id) f = rw (← f.0) (f.1.answers r id)
  poll-Fits answer w (cancelling target ir id) f = rw (← f.0) (f.1.answers tt id)
  poll-Fits answer w (abortable h id t) f = elim (Bool-cases (api.is_aborted w.flags h)) [
    | inl up ↦ rw (up, poll) (aborted_fits Value oid id f.0)
    | inr down ↦
        rw (down, poll)
          (after_abortable-Fits h id (poll json api answer w t) f.0 (poll-Fits answer w t f.1))
  ]
  poll-Fits answer w (initializing t) f =
      after_initialize-Fits (poll json api answer w t) (poll-Fits answer w t f)
  poll-Fits answer w (filtering t) f = absurd f
