-- ===== src/Service/Cancellation/Preserved.antt =====
-- Every call and every poll keeps the table of cancellable requests well-formed: src/service.rs.
use tower_lsp.Base.{◌≡◌, refl, inl, inr, Option, none, some, ok, err, Bool-cases, ◌==◌, String_eq}
use tower_lsp.JsonRpc.RequestId.{RequestId}
use tower_lsp.JsonRpc.Json.{Json}
use tower_lsp.JsonRpc.Request.{Request}
use tower_lsp.JsonRpc.Router.{Router, MethodHandler, Routed, not_found, call_handler, route}
use tower_lsp.JsonRpc.Router
use tower_lsp.Service.State.{State, uninitialized, initialized, exited, State_eq, shut_down}
use tower_lsp.Service.Abort.{AbortApi}
use tower_lsp.Service.World.{World}
use tower_lsp.Service.Task.{
  Task, Polled, pending, ready, done, running, cancelling, abortable, initializing, filtering,
}
use tower_lsp.Service.Pending.{cancel_all}
use tower_lsp.Service.Polling.{poll, after_abortable, after_initialize, after_call}
use tower_lsp.Service.Layers.{
  track, call_cancellable, initialize_in, shutdown_in, normal_in, call_initialize, call_shutdown,
  call_normal, call_exit,
}
use tower_lsp.Service.Lsp.{
  BoxService, layered, plain, exit, initialize, shutdown, normal, call, call_routed, call_service,
}
use tower_lsp.Service.Cancellation.{
  IsWellFormed, release-IsWellFormed, cancel-IsWellFormed, execute-IsWellFormed,
  cancel_all-IsWellFormed,
}

-- The invariant says nothing of the state and of the channel.
relabel-IsWellFormed :
    {api : AbortApi} (w w' : World api)
    → w'.pending ≡ w.pending
    → w'.flags ≡ w.flags
    → IsWellFormed w
    → IsWellFormed w'
relabel-IsWellFormed w w' e f v = record {
  issued = rw (e, f) v.issued;
  down = rw (e, f) v.down;
  own = rw e v.own;
}

module _ {api : AbortApi} {Value B R : Type 0} where
  track-IsWellFormed :
      (id : Option RequestId) (t : Task Value api.Handle B R) (w : World api)
      → IsWellFormed w
      → IsWellFormed (track id t w).0
  unfolding track
  track-IsWellFormed none t w v = v
  track-IsWellFormed (some id) t w v = execute-IsWellFormed id t w v

  module _ {P : Type 0} (h : MethodHandler Value P B R) (req : Request Value) where
    initialize_in-IsWellFormed :
        (s : State) (w : World api) → IsWellFormed w → IsWellFormed (initialize_in s h req w).0
    unfolding initialize_in call_cancellable
    initialize_in-IsWellFormed uninitialized w v = track-IsWellFormed req.id _ w v
    initialize_in-IsWellFormed _ w v = v

    shutdown_in-IsWellFormed :
        (s : State) (w : World api) → IsWellFormed w → IsWellFormed (shutdown_in s h req w).0
    unfolding shutdown_in call_cancellable
    shutdown_in-IsWellFormed initialized w v =
        track-IsWellFormed req.id _ _
          (relabel-IsWellFormed w (record w { state = shut_down }) refl refl v)
    shutdown_in-IsWellFormed _ w v = v

    normal_in-IsWellFormed :
        (s : State) (w : World api) → IsWellFormed w → IsWellFormed (normal_in s h req w).0
    unfolding normal_in call_cancellable
    normal_in-IsWellFormed initialized w v = track-IsWellFormed req.id _ w v
    normal_in-IsWellFormed _ w v = v

  module _ {P : Type 0} (req : Request Value) (w : World api) (v : IsWellFormed w) where
    call_service-IsWellFormed : (s : BoxService Value P B R) → IsWellFormed (call_service s req w).0
    unfolding call_service call_initialize call_shutdown call_normal call_exit
    call_service-IsWellFormed (layered initialize h) = initialize_in-IsWellFormed h req w.state w v
    call_service-IsWellFormed (layered shutdown h) = shutdown_in-IsWellFormed h req w.state w v
    call_service-IsWellFormed (layered normal h) = normal_in-IsWellFormed h req w.state w v
    call_service-IsWellFormed (plain h) = v
    call_service-IsWellFormed exit =
        relabel-IsWellFormed (cancel_all (record w { state = exited })) _ refl refl
          (cancel_all-IsWellFormed (record w { state = exited }))

    call_routed-IsWellFormed :
        (r : Routed Value (BoxService Value P B R)) → IsWellFormed (call_routed r req w).0
    unfolding call_routed
    call_routed-IsWellFormed (Router.service s) = call_service-IsWellFormed s
    call_routed-IsWellFormed (not_found res) = v

module _ (json : Json) {api : AbortApi} {S P B R : Type 0} where
  open json use {Value}

  -- A call of the service, whatever the method, keeps the table of cancellable requests
  -- well-formed: each entry has a handle of its own, which was made and whose flag is down.
  pub call-IsWellFormed :
      (router : Router S (BoxService Value P B R)) (req : Request Value) (w : World api)
      → IsWellFormed w
      → IsWellFormed (call json router req w).0
  unfolding call
  call-IsWellFormed router req w v = elim (Bool-cases (w.state == exited)) [
    | inl gone ↦ rw (gone, call) v
    | inr there ↦ rw (there, call) (call_routed-IsWellFormed req w v (route json router req))
  ]

module _ (json : Json) (api : AbortApi) {B R : Type 0} where
  open json use {Value}

  after_abortable-IsWellFormed :
      (h : api.Handle) (id : RequestId) (p : Polled api Value B R)
      → IsWellFormed p.0
      → IsWellFormed (after_abortable json api h id p).0
  unfolding after_abortable
  after_abortable-IsWellFormed h id (w, pending t) v = v
  after_abortable-IsWellFormed h id (w, ready o) v = release-IsWellFormed id w v

  after_initialize-IsWellFormed :
      (p : Polled api Value B R) → IsWellFormed p.0 → IsWellFormed (after_initialize json api p).0
  unfolding after_initialize
  after_initialize-IsWellFormed (w, pending t) v = v
  after_initialize-IsWellFormed (w, ready (ok res)) v = relabel-IsWellFormed w _ refl refl v
  after_initialize-IsWellFormed (w, ready (err e)) v = v

  after_call-IsWellFormed :
      (p : Polled api Value B R) → IsWellFormed p.0 → IsWellFormed (after_call json api p).0
  unfolding after_call
  after_call-IsWellFormed (w, pending t) v = v
  after_call-IsWellFormed (w, ready (ok res)) v = v
  after_call-IsWellFormed (w, ready (err e)) v = v

  -- So does a poll of any future of the service.
  pub poll-IsWellFormed :
      (answer : Option R) (w : World api) (t : Task Value api.Handle B R)
      → IsWellFormed w
      → IsWellFormed (poll json api answer w t).0
  unfolding poll
  poll-IsWellFormed answer w (done o) v = v
  poll-IsWellFormed none w (running b ir id) v = v
  poll-IsWellFormed (some r) w (running b ir id) v = v
  poll-IsWellFormed answer w (cancelling target ir id) v = cancel-IsWellFormed target w v
  poll-IsWellFormed answer w (abortable h id t) v = elim (Bool-cases (api.is_aborted w.flags h)) [
    | inl up ↦ rw (up, poll) (release-IsWellFormed id w v)
    | inr down ↦
        rw (down, poll)
          (after_abortable-IsWellFormed h id (poll json api answer w t)
            (poll-IsWellFormed answer w t v))
  ]
  poll-IsWellFormed answer w (initializing t) v =
      after_initialize-IsWellFormed (poll json api answer w t) (poll-IsWellFormed answer w t v)
  poll-IsWellFormed answer w (filtering t) v =
      after_call-IsWellFormed (poll json api answer w t) (poll-IsWellFormed answer w t v)
