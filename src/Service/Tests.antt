-- ===== src/Service/Tests.antt =====
-- The theorems of the service at concrete calls.
use tower_lsp.Base.{
  ℕ, ◌≡◌, refl, String, false, List, [], ◌∷◌, Option, none, some, ok, err, String_eq,
}
use tower_lsp.Base.Int.{pos}
use tower_lsp.Base.Map.{get, insert}
use tower_lsp.JsonRpc.RequestId.{RequestId, number, Id_eq}
use tower_lsp.JsonRpc.Error.{Error, method_not_found, request_cancelled_object}
use tower_lsp.JsonRpc.Response.{from_error}
use tower_lsp.JsonRpc.Router.{MethodHandler, route, call_handler, no_params, result_response}
use tower_lsp.Service.State.{uninitialized, initialized, exited}
use tower_lsp.Service.World.{World}
use tower_lsp.Service.Task.{ready, done, abortable, initializing, exited_error}
use tower_lsp.Service.Pending.{execute, cancel}
use tower_lsp.Service.Polling.{poll}
use tower_lsp.Service.Layers.{call_normal, call_initialize, spawn, leave}
use tower_lsp.Service.Lsp.{call, layered, Layer}
use tower_lsp.Service.Cancellation.{IsWellFormed, execute-IsWellFormed}
use tower_lsp.Service.Cancellation.Requests.{poll-cancel}
use tower_lsp.Service.Cancellation.Stale.{reused, cancel-reused}
use tower_lsp.Service.System.{System, Event, called, polled, start, run}
use tower_lsp.Service.System.Runs.{run-IsWellFormed}
use tower_lsp.Service.System.Exit.{run_exited}
use tower_lsp.Service.Lifecycle.Gate.{Admits, call-Runs}
use tower_lsp.Service.Lifecycle.Races.{call_initialize_twice, poll-leave}
use tower_lsp.Service.Samples.{
  json, api, no_flags, Reply, handler, router, request, fresh, idle, work,
}

abbrev one : RequestId
one = number (pos 1)

abbrev hover : List (Option Reply × World api)
hover = (none, idle) ∷ (some (ok "text"), idle) ∷ []

abbrev unknown : Error String
unknown = record { code = method_not_found; message = "Method not found"; payload = some "$/other" }

abbrev gone : System api String ℕ Reply
gone = record { world = record idle { state = exited }; slots = [] }

abbrev later : List (Event String Reply)
later = called (request "hover" 1) ∷ polled 0 none ∷ called (request "initialize" 2) ∷ []

run_exited_example :
    ((run json router later gone).world.state ≡ exited)
    × (call json router (request "hover" 3) (run json router later gone).world
        ≡ ((run json router later gone).world, done (err exited_error)))
run_exited_example =
    run_exited json router later gone (request "hover" 3) (record { state = refl; quiet = tt })

call-Runs_example :
    (l : Layer) × (h : MethodHandler String (Unit {0}) ℕ Reply) × (get "hover" router.methods
      ≡ some (layered l h))
    × Admits l initialized
unfolding call route get call_normal call_handler result_response no_params
call-Runs_example = call-Runs json router (request "hover" 1) idle tt

-- With one request in flight.
abbrev busy : World api
busy = (execute one work idle).0

poll-cancel_example :
    ((poll json api (some (ok "text")) (cancel one busy) (abortable 0 one work)).1
      ≡ ready (ok (some (from_error one request_cancelled_object))))
    × (get one (poll json api (some (ok "text")) (cancel one busy) (abortable 0 one work)).0.pending
        ≡ none)
unfolding execute get insert
poll-cancel_example = poll-cancel json api one 0 work busy (some (ok "text")) refl

idle-IsWellFormed : IsWellFormed idle
unfolding get
idle-IsWellFormed = record {
  issued = λ i h e. absurd (cc);
  down = λ i h e. absurd (cc);
  own = λ i j h e f. absurd (cc);
}

busy-IsWellFormed : IsWellFormed busy
busy-IsWellFormed = execute-IsWellFormed one work idle idle-IsWellFormed

run-IsWellFormed_example : IsWellFormed (run json router later (start api no_flags)).world
run-IsWellFormed_example = run-IsWellFormed json router no_flags later

cancel-reused_example :
    (k : ℕ) × ((execute one work (cancel one busy)).1 ≡ abortable k one work)
    × ((reused json api one 0 work work (cancel one busy)).flags.raised k ≡ false)
    × (cancel one (reused json api one 0 work work (cancel one busy))
        ≡ reused json api one 0 work work (cancel one busy))
unfolding execute get insert
cancel-reused_example = cancel-reused json api one 0 work work busy busy-IsWellFormed refl

call_initialize_twice_example :
    (k l : ℕ) × ((call_initialize handler (request "initialize" 1) fresh).1
      ≡ initializing (abortable k one (spawn (call_handler handler (request "initialize" 1)))))
    × ((call_initialize handler
          (request "initialize" 2)
          (call_initialize {B = ℕ} {R = Reply} handler (request "initialize" 1) fresh).0).1
        ≡ initializing
            (abortable l (number (pos 2)) (spawn (call_handler handler (request "initialize" 2)))))
unfolding get
call_initialize_twice_example =
    call_initialize_twice api handler (request "initialize" 1) (request "initialize" 2) one
      (number (pos 2)) fresh refl refl refl refl refl (λ e. cc)

poll-leave_example :
    ((leave (call_initialize {B = ℕ} {R = Reply} handler (request "initialize" 1) fresh).0).state
      ≡ exited)
    × ((poll json api none
          (leave (call_initialize {B = ℕ} {R = Reply} handler (request "initialize" 1) fresh).0)
          (call_initialize handler (request "initialize" 1) fresh).1).0.state
        ≡ uninitialized)
unfolding get
poll-leave_example =
    poll-leave json api handler (request "initialize" 1) one fresh refl refl refl none
