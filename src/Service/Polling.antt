-- ===== src/Service/Polling.antt =====
-- One poll of a future of the service: the `async` blocks of src/service/pending.rs,
-- src/service/layers.rs and src/service.rs, and the map of `MethodHandler::call` in
-- src/jsonrpc/router.rs.
use text.Mathlib.Text.{starts_with}
use tower_lsp.Base.{◌≡◌, String, Bool, true, false, Option, none, some, ok, err, if◌then◌else◌}
use tower_lsp.JsonRpc.RequestId.{RequestId}
use tower_lsp.JsonRpc.Json.{Json}
use tower_lsp.JsonRpc.Error.{Error, ErrorCode, method_not_found}
use tower_lsp.JsonRpc.Response.{Response, is_ok, error}
use tower_lsp.Service.State.{State, initialized, uninitialized}
use tower_lsp.Service.Abort.{AbortApi}
use tower_lsp.Service.World.{World}
use tower_lsp.Service.Task.{
  Task, Polled, pending, ready, done, running, cancelling, abortable, initializing, filtering,
}
use tower_lsp.Service.Pending.{release, cancel, aborted_outcome}

-- The state that the answer to `initialize` leads to.
unfoldable pub state_after : {Value : Type 0} → Option (Response Value) → State
unfolding is_ok
state_after (some res) = if is_ok res then initialized else uninitialized
state_after none = uninitialized

abbrev pub is_method_not_found : ErrorCode → Bool
is_method_not_found method_not_found = true
is_method_not_found _ = false

unfoldable pub is_optional_name : Option String → Bool
is_optional_name none = false
is_optional_name (some m) = starts_with m "$/"

module _ (json : Json) where
  open json use {Value, as_string}

  abbrev names_optional : Option Value → Bool
  names_optional none = false
  names_optional (some v) = is_optional_name (as_string v)

  -- The pattern of `LspService::call`: an unknown method with a name that starts with "$/".
  unfoldable pub is_optional_error : Option (Error Value) → Bool
  unfolding is_optional_name
  is_optional_error none = false
  is_optional_error (some e) =
      if is_method_not_found e.code then names_optional e.payload else false

  unfoldable pub filter_response : Option (Response Value) → Option (Response Value)
  unfolding error is_optional_error
  filter_response none = none
  filter_response (some res) = if is_optional_error (error res) then none else some res

  module _ (api : AbortApi) {B R : Type 0} where
    unfoldable pub after_abortable :
        api.Handle → RequestId → Polled api Value B R → Polled api Value B R
    unfolding release
    after_abortable h id (w, pending t) = (w, pending (abortable h id t))
    after_abortable h id (w, ready o) = (release id w, ready o)

    unfoldable pub after_initialize : Polled api Value B R → Polled api Value B R
    unfolding state_after
    after_initialize (w, pending t) = (w, pending (initializing t))
    after_initialize (w, ready (err e)) = (w, ready (err e))
    after_initialize (w, ready (ok res)) = (record w { state = state_after res }, ready (ok res))

    unfoldable pub after_call : Polled api Value B R → Polled api Value B R
    unfolding filter_response
    after_call (w, pending t) = (w, pending (filtering t))
    after_call (w, ready (err e)) = (w, ready (err e))
    after_call (w, ready (ok res)) = (w, ready (ok (filter_response res)))

    -- `answer` is what the backend's future, if the poll reaches one, ends in, or `none`, where it
    -- goes on waiting.
    unfoldable pub poll : Option R → World api → Task Value api.Handle B R → Polled api Value B R
    unfolding release cancel aborted_outcome after_abortable after_initialize after_call
    poll answer w (done o) = (w, ready o)
    poll answer w (running b ir id) = elim answer [
      | none ↦ (w, pending (running b ir id))
      | some r ↦ (w, ready (ok (ir.into_response r id)))
    ]
    poll answer w (cancelling target ir id) = (cancel target w, ready (ok (ir.into_response tt id)))
    poll answer w (abortable h id t) =
        let polled = after_abortable h id (poll answer w t) in
        if api.is_aborted w.flags h then (release id w, ready (aborted_outcome id)) else polled
    poll answer w (initializing t) = after_initialize (poll answer w t)
    poll answer w (filtering t) = after_call (poll answer w t)

    -- A future whose flag is up is not run.
    pub poll-abortable_up :
        (answer : Option R) (w : World api) (h : api.Handle) (id : RequestId)
        (t : Task Value api.Handle B R)
        → api.is_aborted w.flags h ≡ true
        → poll answer w (abortable h id t) ≡ (release id w, ready (aborted_outcome id))
    unfolding poll
    poll-abortable_up answer w h id t up = rw (up, poll)
