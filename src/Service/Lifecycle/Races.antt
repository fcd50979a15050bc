-- ===== src/Service/Lifecycle/Races.antt =====
-- What goes wrong while the answer to `initialize` is still to come: src/service/layers.rs.
use tower_lsp.Base.{◌≡◌, refl, ◌≢◌, ◌∙◌, ap, true, Option, none, some, arith, eq_iff}
use tower_lsp.Base.Map.{get, get-insert}
use tower_lsp.JsonRpc.RequestId.{RequestId, Id_eq}
use tower_lsp.JsonRpc.Json.{Json}
use tower_lsp.JsonRpc.Request.{Request}
use tower_lsp.JsonRpc.Response.{from_error, is_ok}
use tower_lsp.JsonRpc.Router.{MethodHandler, call_handler}
use tower_lsp.Service.State.{uninitialized, exited}
use tower_lsp.Service.Abort.{AbortApi}
use tower_lsp.Service.World.{World}
use tower_lsp.Service.Task.{abortable, initializing}
use tower_lsp.Service.Pending.{enter, execute_free, cancel_all, aborted_outcome}
use tower_lsp.Service.Polling.{poll, poll-abortable_up, after_initialize, state_after}
use tower_lsp.Service.Layers.{
  watch_initialize, spawn, track, call_cancellable, initialize_in, call_initialize, leave,
}
use tower_lsp.Service.Cancellation.{abort_all-get}

module _ {Value P B R : Type 0} (api : AbortApi) (h : MethodHandler Value P B R)
    (req : Request Value) (id : RequestId) (w : World api) (fresh : w.state ≡ uninitialized)
    (named : req.id ≡ some id) (free : get id w.pending ≡ none) where
  abbrev pub new_handle : api.Handle
  new_handle = (api.abortable w.flags).0

  -- A request in the state `uninitialized` is registered and runs its handler, and the state stays.
  call_initialize_free :
      call_initialize h req w
      ≡ (enter id w, initializing (abortable new_handle id (spawn (call_handler h req))))
  unfolding call_initialize initialize_in call_cancellable track
  call_initialize_free =
      ap (λ s. initialize_in s h req w) fresh
      ∙ ap (λ o. watch_initialize (track o (spawn (call_handler h req)) w)) named
      ∙ ap watch_initialize (execute_free id (spawn (call_handler h req)) w free)

-- While no `initialize` request has been answered, the handler runs for every one that comes with
-- a free identifier: two such requests with different identifiers are both handed to the backend.
pub call_initialize_twice :
    {Value P B R : Type 0} (api : AbortApi) (h : MethodHandler Value P B R)
    (first second : Request Value) (i j : RequestId) (w : World api)
    → w.state ≡ uninitialized
    → first.id ≡ some i
    → second.id ≡ some j
    → get i w.pending ≡ none
    → get j w.pending ≡ none
    → i ≢ j
    → (k l : api.Handle) × ((call_initialize h first w).1
        ≡ initializing (abortable k i (spawn (call_handler h first))))
      × ((call_initialize h second (call_initialize h first w).0).1
          ≡ initializing (abortable l j (spawn (call_handler h second))))
call_initialize_twice api h first second i j w fresh named_i named_j free_i free_j other =
    let one = call_initialize_free api h first i w fresh named_i free_i in
    let still_free : get j (enter i w).pending ≡ none = ground (
      arith,
      get-insert i j (new_handle api h first i w fresh named_i free_i) w.pending,
      eq_iff i j,
    ) in
    let two = call_initialize_free api h second j (enter i w) fresh named_j still_free in
    (_, _, ap (λ c. c.1) one, ap (λ c. (call_initialize h second c.0).1) one ∙ ap (λ c. c.1) two)

module _ (json : Json) (api : AbortApi) {P B R : Type 0} (h : MethodHandler json.Value P B R)
    (req : Request json.Value) (id : RequestId) (w : World api) (fresh : w.state ≡ uninitialized)
    (named : req.id ≡ some id) (free : get id w.pending ≡ none) (answer : Option R) where
  -- The world after `exit` was called while the answer to `req` is to come.
  abbrev pub left : World api
  left = leave (call_initialize {B = B} {R = R} h req w).0

  abbrev one : call_initialize {B = B} h req w ≡ (
    enter id w,
    initializing
        (abortable (new_handle api h req id w fresh named free) id (spawn (call_handler h req))),
  )
  one = call_initialize_free api h req id w fresh named free

  left_up :
      api.is_aborted (leave (enter id w)).flags (new_handle api h req id w fresh named free) ≡ true
  unfolding leave cancel_all
  left_up = abort_all-get api id _ (enter id w).pending (enter id w).flags (
      ground (
        arith,
        get-insert id id (new_handle api h req id w fresh named free) w.pending,
        eq_iff id id,
      ))

  -- If `exit` is called while an `initialize` request with a free identifier is being answered,
  -- the state is `exited` only until the future of that request is polled: it was aborted, and as
  -- its answer is an error, it sets the state back to `uninitialized`, in which requests are
  -- served again.
  pub poll-leave :
      (left.state ≡ exited)
      × ((poll json api answer left (call_initialize h req w).1).0.state ≡ uninitialized)
  unfolding leave cancel_all poll after_initialize state_after aborted_outcome is_ok from_error
  poll-leave = (
    refl,
    ap (λ c. (poll json api answer (leave c.0) c.1).0.state) one
        ∙ ap (λ p. (after_initialize json api p).0.state)
            (poll-abortable_up json api answer (leave (enter id w))
              (new_handle api h req id w fresh named free) id (spawn (call_handler h req)) left_up),
  )
