-- ===== src/Service/Lifecycle/Gate.antt =====
-- Which calls reach the backend: src/service/layers.rs.
use tower_lsp.Base.{
  ◌≡◌, refl, ap, ◌∙◌, eq_iff, ◌≢◌, inl, inr, Option, none, some, ok, Option-cases, Bool-cases, ◌==◌,
  String_eq,
}
use tower_lsp.Base.Int.{ℤ}
use tower_lsp.Base.Map.{get}
use tower_lsp.JsonRpc.RequestId.{RequestId, Id_eq}
use tower_lsp.JsonRpc.Json.{Json}
use tower_lsp.JsonRpc.Error.{Error, neg, code, not_initialized_error, invalid_request_object}
use tower_lsp.JsonRpc.Request.{Request}
use tower_lsp.JsonRpc.Response.{Response, from_error}
use tower_lsp.JsonRpc.Router.{
  Router, MethodHandler, HandlerCall, finished, Routed, not_found, route,
}
use tower_lsp.JsonRpc.Router
use tower_lsp.Service.State.{
  State, uninitialized, initializing, initialized, shut_down, exited, State_eq,
}
use tower_lsp.Service.Abort.{AbortApi}
use tower_lsp.Service.World.{World}
use tower_lsp.Service.Task.{Task, done, running, cancelling, abortable, filtering}
use tower_lsp.Service.Layers.{
  initialize_in, shutdown_in, normal_in, call_initialize, call_shutdown, call_normal, call_exit,
  not_initialized_response, state_error,
}
use tower_lsp.Service.Lsp.{
  BoxService, Layer, layered, plain, exit, initialize, shutdown, normal, call, call_routed,
  call_service, spawn_cancel, watch_call,
}

-- The futures that run a future of the backend.
abbrev pub Runs : {Value H B R : Type 0} → Task Value H B R → Type 0
Runs (running b ir id) = Unit
Runs (abortable h id t) = Runs t
Runs (Task.initializing t) = Runs t
Runs (filtering t) = Runs t
Runs (done o) = ⊥
Runs (cancelling target ir id) = ⊥

-- The states in which a layer lets a request through.
abbrev pub Admits : Layer → State → Type 0
Admits initialize s = s ≡ uninitialized
Admits shutdown s = s ≡ initialized
Admits normal s = s ≡ initialized

-- The number of the error that a request meets in a state in which it is not served.
abbrev pub refusal_code : State → ℤ
refusal_code uninitialized = neg 32002
refusal_code initializing = neg 32002
refusal_code _ = neg 32600

abbrev pub Refuses : {Value : Type 0} → Option RequestId → State → Option (Response Value) → Type 0
Refuses none s res = res ≡ none
Refuses {Value} (some i) s res =
    (e : Error Value) × (res ≡ some (from_error i e)) × (code e.code ≡ refusal_code s)

state_error_code :
    (Value : Type 0) (s : State) → code (state_error {Value = Value} s).code ≡ refusal_code s
unfolding state_error code not_initialized_error invalid_request_object
state_error_code Value uninitialized = refl
state_error_code Value initializing = refl
state_error_code Value initialized = refl
state_error_code Value shut_down = refl
state_error_code Value exited = refl

not_initialized_response-Refuses :
    (Value : Type 0) (id : Option RequestId) (s : State)
    → Refuses {Value = Value} id s (not_initialized_response id s)
unfolding not_initialized_response
not_initialized_response-Refuses Value none s = refl
not_initialized_response-Refuses Value (some i) s = (state_error s, refl, state_error_code Value s)

module _ {api : AbortApi} {Value P B R : Type 0} (h : MethodHandler Value P B R)
    (req : Request Value) (w : World api) where
  initialize_in-Runs : (s : State) → Runs (initialize_in {B = B} s h req w).1 → s ≡ uninitialized
  unfolding initialize_in
  initialize_in-Runs uninitialized r = refl
  initialize_in-Runs _ r = absurd r

  shutdown_in-Runs : (s : State) → Runs (shutdown_in {B = B} s h req w).1 → s ≡ initialized
  unfolding shutdown_in
  shutdown_in-Runs initialized r = refl
  shutdown_in-Runs _ r = absurd r

  normal_in-Runs : (s : State) → Runs (normal_in {B = B} s h req w).1 → s ≡ initialized
  unfolding normal_in
  normal_in-Runs initialized r = refl
  normal_in-Runs _ r = absurd r

  layered-Runs : (l : Layer) → Runs (call_service (layered l h) req w).1 → Admits l w.state
  unfolding call_service call_initialize call_shutdown call_normal
  layered-Runs initialize r = initialize_in-Runs w.state r
  layered-Runs shutdown r = shutdown_in-Runs w.state r
  layered-Runs normal r = normal_in-Runs w.state r

  shutdown_in_refused :
      (s : State)
      → s ≢ initialized
      → shutdown_in s h req w ≡ (w, done (ok (not_initialized_response req.id s)))
  unfolding shutdown_in
  shutdown_in_refused initialized e = absurd (e refl)
  shutdown_in_refused _ e = refl

  normal_in_refused :
      (s : State)
      → s ≢ initialized
      → normal_in s h req w ≡ (w, done (ok (not_initialized_response req.id s)))
  unfolding normal_in
  normal_in_refused initialized e = absurd (e refl)
  normal_in_refused _ e = refl

  layered_refused :
      (l : Layer)
      → l ≢ initialize
      → w.state ≢ initialized
      → call_service (layered l h) req w ≡ (w, done (ok (not_initialized_response req.id w.state)))
  unfolding call_service call_shutdown call_normal
  layered_refused initialize other e = absurd (other refl)
  layered_refused shutdown other e = shutdown_in_refused w.state e
  layered_refused normal other e = normal_in_refused w.state e

spawn_cancel-Runs :
    {Value : Type 0} (H B R : Type 0) (c : HandlerCall Value RequestId (Unit {0}))
    → ¬ Runs (spawn_cancel {H = H} {B = B} {R = R} c)
unfolding spawn_cancel
spawn_cancel-Runs H B R (finished r) x = x
spawn_cancel-Runs H B R (Router.running b ir id) x = x

module _ (json : Json) {api : AbortApi} {S P B R : Type 0}
    (router : Router S (BoxService json.Value P B R)) (req : Request json.Value)
    (w : World api) where
  open json use {Value}

  call_service-Runs :
      (s : BoxService Value P B R)
      → Runs (call_service s req w).1
      → (l : Layer) × (h : MethodHandler Value P B R) × (s ≡ layered l h) × Admits l w.state
  unfolding call_service call_exit
  call_service-Runs (layered l h) r = (l, h, refl, layered-Runs h req w l r)
  call_service-Runs (plain h) r = absurd (spawn_cancel-Runs _ _ _ _ r)
  call_service-Runs exit r = absurd r

  routed-Runs :
      Runs (call_routed (route json router req) req w).1
      → (l : Layer) × (h : MethodHandler Value P B R) × (get req.method router.methods
          ≡ some (layered l h))
        × Admits l w.state
  unfolding call_routed route
  routed-Runs r = elim (Option-cases (get req.method router.methods)) [
    | inl unknown ↦ absurd (rw (unknown, route) at r)
    | inr (s, known) ↦
        let (l, h, same, admitted) = call_service-Runs s (rw (known, route) at r) in
        (l, h, known ∙ ap some same, admitted)
  ]

  -- A call starts a future of the backend only for a registered method, and only in the state
  -- that its layer asks for: `uninitialized` for `initialize`, `initialized` for every other.
  pub call-Runs :
      Runs (call json router req w).1
      → (l : Layer) × (h : MethodHandler Value P B R) × (get req.method router.methods
          ≡ some (layered l h))
        × Admits l w.state
  unfolding call call_routed route
  call-Runs r = elim (Bool-cases (w.state == exited)) [
    | inl gone ↦ absurd (rw (gone, call) at r)
    | inr there ↦ routed-Runs (rw (there, call) at r)
  ]

  -- In a state other than `initialized` and `exited`, a method behind the `shutdown` or the
  -- normal layer is refused and the world stays as it is: a request gets the error -32002 before
  -- initialization and -32600 after shutdown, under its identifier, and a notification nothing.
  pub call_refused :
      (l : Layer) (h : MethodHandler Value P B R)
      → get req.method router.methods ≡ some (layered l h)
      → l ≢ initialize
      → w.state ≢ initialized
      → w.state ≢ exited
      → (res : Option (Response Value)) × (call json router req w ≡ (w, filtering (done (ok res))))
        × Refuses req.id w.state res
  unfolding call call_routed route
  call_refused l h known other early here = (
    not_initialized_response req.id w.state,
    elim (Bool-cases (w.state == exited)) [
      | inl gone ↦ absurd (here ((eq_iff w.state exited).0 gone))
      | inr there ↦
          rw (there, call)
            (rw (known, route) (ap watch_call (layered_refused h req w l other early)))
    ],
    not_initialized_response-Refuses Value req.id w.state,
  )
