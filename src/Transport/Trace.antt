-- ===== src/Transport/Trace.antt =====
-- What the steps of the server have to do: src/transport.rs.
use tower_lsp.Base.{ℕ, List, [], ◌∷◌, ◌++◌, Option, some, ok, err, get_elem?, if◌then◌else◌, ltb}
use tower_lsp.JsonRpc.RequestId.{null}
use tower_lsp.JsonRpc.Json.{Json}
use tower_lsp.JsonRpc.Request.{Request}
use tower_lsp.JsonRpc.Response.{Response, from_error}
use tower_lsp.JsonRpc.Message.{response, request}
use tower_lsp.JsonRpc.Router.{Router}
use tower_lsp.Service.State.{State, initializing, exited}
use tower_lsp.Service.Abort.{AbortApi}
use tower_lsp.Service.Task.{Poll, pending}
use tower_lsp.Service.Lsp.{BoxService}
use tower_lsp.Service.System.{Event, called, polled}
use tower_lsp.Client.Oneshot.{OneshotApi}
use tower_lsp.Transport.Failure.{to_jsonrpc_error}
use tower_lsp.Transport.Connection.{
  Reader, Reading, reading, waiting, Connection, Step, read, end_of_input, resumed, running_before,
  serve_step,
}
use tower_lsp.Transport.Connection

abbrev pub at_reading : {Value A : Type 0} → Reading Value → List A → List A
at_reading reading xs = xs
at_reading _ xs = []

-- A request makes a call where the service is ready.
abbrev pub call_when_ready : {Value R : Type 0} → State → Request Value → List (Event Value R)
call_when_ready initializing req = []
call_when_ready exited req = []
call_when_ready _ req = called req ∷ []

abbrev pub resumed_call : {Value R : Type 0} → Reading Value → State → List (Event Value R)
resumed_call (waiting req) state = call_when_ready state req
resumed_call _ state = []

-- A task that is running is polled where fewer than `max` tasks before it are running.
abbrev pub poll_in_progress :
    {Value R T A : Type 0}
    → ℕ
    → ℕ
    → Option R
    → List (Poll T A)
    → Option (Poll T A)
    → List (Event Value R)
poll_in_progress max i answer slots (some (pending t)) =
    if ltb (running_before i slots) max then polled i answer ∷ [] else []
poll_in_progress max i answer slots _ = []

module _ (json : Json) {api : AbortApi} {channels : OneshotApi (Response json.Value)}
    {S P B R J : Type 0} (router : Router S (BoxService json.Value P B R)) (reader : Reader J)
    (max : ℕ) where
  open json use {Value}

  -- What a step does to the service.
  abbrev pub step_events : Step Value J R → Connection api channels B R → List (Event Value R)
  step_events (read (ok (request req))) k =
      at_reading k.read_input (call_when_ready k.system.world.state req)
  step_events (read (ok (response res))) k = []
  step_events (read (err e)) k = []
  step_events end_of_input k = []
  step_events resumed k = resumed_call k.read_input k.system.world.state
  step_events (Connection.polled i answer) k =
      poll_in_progress max i answer k.system.slots (get_elem? k.system.slots i)

  abbrev pub events : List (Step Value J R) → Connection api channels B R → List (Event Value R)
  events [] k = []
  events (e ∷ es) k = step_events e k ++ events es (serve_step json router reader max e k)

  -- The answer to a message that is not decoded.
  abbrev pub step_failures : Step Value J R → Connection api channels B R → List (Response Value)
  step_failures (read (err e)) k =
      at_reading k.read_input (from_error null (to_jsonrpc_error reader.is_data e) ∷ [])
  step_failures _ k = []

  -- These answers, one for each such message that is read, behind `rs`; the newest comes first.
  abbrev pub failures :
      List (Step Value J R)
      → Connection api channels B R
      → List (Response Value)
      → List (Response Value)
  failures [] k rs = rs
  failures (e ∷ es) k rs =
      failures es (serve_step json router reader max e k) (step_failures e k ++ rs)
