-- ===== src/Service/Lifecycle/Moves.antt =====
-- The moves of the server's state: src/service/layers.rs.
use tower_lsp.Base.{
  ◌≡◌, refl, sym, subst, ◌⊎◌, inl, inr, Option, none, some, ok, err, Option-cases, Bool-cases, ◌==◌,
  String_eq,
}
use tower_lsp.Base.Map.{get}
use tower_lsp.JsonRpc.RequestId.{RequestId, Id_eq}
use tower_lsp.JsonRpc.Json.{Json}
use tower_lsp.JsonRpc.Request.{Request}
use tower_lsp.JsonRpc.Response.{Response, is_ok}
use tower_lsp.JsonRpc.Router.{Router, MethodHandler, Routed, not_found, route}
use tower_lsp.JsonRpc.Router
use tower_lsp.Service.State.{State, uninitialized, initialized, shut_down, exited, State_eq}
use tower_lsp.Service.Abort.{AbortApi}
use tower_lsp.Service.World.{World}
use tower_lsp.Service.Task.{
  Task, Polled, pending, ready, done, running, cancelling, abortable, initializing, filtering,
}
use tower_lsp.Service.Pending.{execute, cancel, release, cancel_all}
use tower_lsp.Service.Polling.{poll, after_abortable, after_initialize, after_call, state_after}
use tower_lsp.Service.Layers.{
  track, call_cancellable, initialize_in, shutdown_in, normal_in, call_initialize, call_shutdown,
  call_normal, call_exit,
}
use tower_lsp.Service.Lsp.{
  BoxService, layered, plain, exit, initialize, shutdown, normal, call, call_routed, call_service,
}

-- What a call may do to the state.
pub data CallMove : State → State → Type 0 where
  stay : (s : State) → CallMove s s
  shut : CallMove initialized shut_down
  leave : (s : State) → CallMove s exited

-- What a poll may do: the answer to `initialize` sets the state, from whatever it is by then.
pub data PollMove : State → State → Type 0 where
  stay : (s : State) → PollMove s s
  settle_ok : (s : State) → PollMove s initialized
  settle_err : (s : State) → PollMove s uninitialized

-- The futures with an answer to `initialize` to come.
abbrev pub AwaitsInitialize : {Value H B R : Type 0} → Task Value H B R → Type 0
AwaitsInitialize (initializing t) = Unit
AwaitsInitialize (abortable h id t) = AwaitsInitialize t
AwaitsInitialize (filtering t) = AwaitsInitialize t
AwaitsInitialize _ = ⊥

module _ {api : AbortApi} where
  release_state : (id : RequestId) (w : World api) → (release id w).state ≡ w.state
  unfolding release
  release_state id w = refl

  cancel_state : (id : RequestId) (w : World api) → (cancel id w).state ≡ w.state
  unfolding cancel
  cancel_state id w = elim (Option-cases (get id w.pending)) [
    | inl free ↦ rw (free, cancel)
    | inr (h, e) ↦ rw (e, cancel)
  ]

  module _ {Value B R : Type 0} where
    execute_state :
        (id : RequestId) (t : Task Value api.Handle B R) (w : World api)
        → (execute id t w).0.state ≡ w.state
    unfolding execute
    execute_state id t w = elim (Option-cases (get id w.pending)) [
      | inl free ↦ rw (free, execute)
      | inr (h, e) ↦ rw (e, execute)
    ]

    track_state :
        (id : Option RequestId) (t : Task Value api.Handle B R) (w : World api)
        → (track id t w).0.state ≡ w.state
    unfolding track
    track_state none t w = refl
    track_state (some id) t w = execute_state id t w

    module _ {P : Type 0} (h : MethodHandler Value P B R) (req : Request Value)
        (w : World api) where
      initialize_in-CallMove : (s : State) → CallMove w.state (initialize_in s h req w).0.state
      unfolding initialize_in call_cancellable
      initialize_in-CallMove uninitialized = rw (track_state req.id _ w) (CallMove.stay w.state)
      initialize_in-CallMove _ = CallMove.stay w.state

      shutdown_in-CallMove :
          (s : State) → w.state ≡ s → CallMove w.state (shutdown_in s h req w).0.state
      unfolding shutdown_in call_cancellable
      shutdown_in-CallMove initialized e =
          rw (track_state req.id _ (record w { state = shut_down }))
            (subst (λ s. CallMove s shut_down) (sym e) shut)
      shutdown_in-CallMove _ e = CallMove.stay w.state

      normal_in-CallMove : (s : State) → CallMove w.state (normal_in s h req w).0.state
      unfolding normal_in call_cancellable
      normal_in-CallMove initialized = rw (track_state req.id _ w) (CallMove.stay w.state)
      normal_in-CallMove _ = CallMove.stay w.state

    call_service-CallMove :
        {P : Type 0} (s : BoxService Value P B R) (req : Request Value) (w : World api)
        → CallMove w.state (call_service s req w).0.state
    unfolding call_service call_initialize call_shutdown call_normal call_exit cancel_all
    call_service-CallMove (layered initialize h) req w = initialize_in-CallMove h req w w.state
    call_service-CallMove (layered shutdown h) req w = shutdown_in-CallMove h req w w.state refl
    call_service-CallMove (layered normal h) req w = normal_in-CallMove h req w w.state
    call_service-CallMove (plain h) req w = CallMove.stay w.state
    call_service-CallMove exit req w = leave w.state

    call_routed-CallMove :
        {P : Type 0} (r : Routed Value (BoxService Value P B R)) (req : Request Value)
        (w : World api)
        → CallMove w.state (call_routed r req w).0.state
    unfolding call_routed
    call_routed-CallMove (Router.service s) req w = call_service-CallMove s req w
    call_routed-CallMove (not_found res) req w = CallMove.stay w.state

module _ (json : Json) {api : AbortApi} {S P B R : Type 0} where
  open json use {Value}

  -- A call leaves the state as it is, takes it from `initialized` to `shut_down`, or takes it to
  -- `exited`.
  pub call-CallMove :
      (router : Router S (BoxService Value P B R)) (req : Request Value) (w : World api)
      → CallMove w.state (call json router req w).0.state
  unfolding call
  call-CallMove router req w = elim (Bool-cases (w.state == exited)) [
    | inl gone ↦ rw (gone, call) (CallMove.stay w.state)
    | inr there ↦ rw (there, call) (call_routed-CallMove (route json router req) req w)
  ]

settle : {Value : Type 0} (s : State) (res : Option (Response Value)) → PollMove s (state_after res)
unfolding state_after
settle s none = settle_err s
settle s (some res) = elim (Bool-cases (is_ok res)) [
  | inl good ↦ rw (good, state_after) (settle_ok s)
  | inr bad ↦ rw (bad, state_after) (settle_err s)
]

module _ (json : Json) (api : AbortApi) {B R : Type 0} where
  open json use {Value}

  abbrev pub PollMoved : Task Value api.Handle B R → State → State → Type 0
  PollMoved t s s' = (s' ≡ s) ⊎ (AwaitsInitialize t × PollMove s s')

  after_abortable_state :
      (h : api.Handle) (id : RequestId) (p : Polled api Value B R)
      → (after_abortable json api h id p).0.state ≡ p.0.state
  unfolding after_abortable release
  after_abortable_state h id (w, pending t) = refl
  after_abortable_state h id (w, ready o) = refl

  after_call_state : (p : Polled api Value B R) → (after_call json api p).0.state ≡ p.0.state
  unfolding after_call
  after_call_state (w, pending t) = refl
  after_call_state (w, ready (ok res)) = refl
  after_call_state (w, ready (err e)) = refl

  after_initialize-PollMove :
      (s : State) (p : Polled api Value B R)
      → PollMove s p.0.state
      → PollMove s (after_initialize json api p).0.state
  unfolding after_initialize
  after_initialize-PollMove s (w, pending t) m = m
  after_initialize-PollMove s (w, ready (ok res)) m = settle s res
  after_initialize-PollMove s (w, ready (err e)) m = m

  moved : (t : Task Value api.Handle B R) {s s' : State} → PollMoved t s s' → PollMove s s'
  moved t {s} (inl e) = subst (PollMove s) (sym e) (PollMove.stay s)
  moved t (inr (_, m)) = m

  -- A poll leaves the state as it is, unless the future has an answer to `initialize` to come;
  -- then it may set the state to `initialized` or to `uninitialized`, whatever it was.
  pub poll-PollMoved :
      (answer : Option R) (w : World api) (t : Task Value api.Handle B R)
      → PollMoved t w.state (poll json api answer w t).0.state
  unfolding poll
  poll-PollMoved answer w (done o) = inl refl
  poll-PollMoved none w (running b ir id) = inl refl
  poll-PollMoved (some r) w (running b ir id) = inl refl
  poll-PollMoved answer w (cancelling target ir id) = inl (cancel_state target w)
  poll-PollMoved answer w (abortable h id t) = elim (Bool-cases (api.is_aborted w.flags h)) [
    | inl up ↦ rw (up, poll) (inl (release_state id w))
    | inr down ↦
        rw (down, poll, after_abortable_state h id (poll json api answer w t))
          (poll-PollMoved answer w t)
  ]
  poll-PollMoved answer w (initializing t) =
      inr (tt, after_initialize-PollMove w.state _ (moved t (poll-PollMoved answer w t)))
  poll-PollMoved answer w (filtering t) =
      rw (after_call_state (poll json api answer w t)) (poll-PollMoved answer w t)
