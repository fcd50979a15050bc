-- ===== src/Transport/Tests.antt =====
-- A server that reads some messages.
use mathlib.Core.List.{Perm}
use tower_lsp.Base.{
  Option, ℕ, String, true, false, ◌≡◌, refl, inl, List, [], ◌∷◌, ◌++◌, String_eq, List_eq, ℕ_eq,
  none, some, ok, err, All, arith, length, map, take,
}
use tower_lsp.Base.Int.{pos}
use tower_lsp.JsonRpc.RequestId.{number, null}
use tower_lsp.JsonRpc.Response.{Response, ok_kind, from_parts}
use tower_lsp.JsonRpc.Router.{result_response, route, call_handler, no_params}
use tower_lsp.Base.Map.{get, insert}
use tower_lsp.Service.Layers.{call_normal, call_exit}
use tower_lsp.Service.Lsp.{call}
use tower_lsp.Service.System.{step, run}
use tower_lsp.Service.Samples.{json, api, router, Reply, fresh, request, notification, idle}
use tower_lsp.Client.Samples.{channels_api, numbered, closed}
use tower_lsp.Client.Waiters.{Pending}
use tower_lsp.Codec.Headers.{missing_content_length}
use tower_lsp.Transport.Connection
use tower_lsp.JsonRpc.Message.{Message, response}
use tower_lsp.Transport.Connection.{
  Reader, Connection, Step, read, end_of_input, polled, connect, serve, serve_step, reading,
}
use tower_lsp.Service.State.{uninitialized}
use tower_lsp.Service.Lifecycle.Gate.{Refuses}
use tower_lsp.Service.Methods.{Reply as BackendReply, parse_method_calls, call_of}
use tower_lsp.Service.Methods.Table.{language_server}
use tower_lsp.Service.Methods.Serving.{built}
use tower_lsp.Service.Methods.Samples.{server, customs, customs-AreAnswering, initialized_method}
use tower_lsp.JsonRpc.Document.{SerdeJson}
use tower_lsp.JsonRpc.Documents.{Tree, nothing, documents}
use tower_lsp.JsonRpc.Router.{Router}
use tower_lsp.Service.Lsp.{BoxService}
use tower_lsp.Codec.Messages
use tower_lsp.Transport.Refused.{HasRefused}
use tower_lsp.Transport.Built.{built-output-IsCaused, built-serve_refused}
use tower_lsp.Transport.Completion.{is_served}
use tower_lsp.Transport.Answers.{IsAnswerTo, IsRead}
use tower_lsp.Transport.Sequential.{answers}
use tower_lsp.Transport.Trace.{failures, events}
use tower_lsp.Transport.Ordered.{IsOrdered, connect-IsOrdered}
use tower_lsp.Client.Waiters.Order.{IsServed}
use tower_lsp.Transport.Routed.{read-IsServed}
use tower_lsp.Transport.Once.{IsComplete, connect-IsComplete}
use tower_lsp.Transport.Finished.{polls, serve-end_of_input}
use tower_lsp.Transport.Stopped.{serve-exited}
use tower_lsp.Transport.Runs.{serve-run}

abbrev no_waiters : Pending channels_api
no_waiters = record { waiters = []; channels = closed }

-- serde_json finds one kind of error, and the stream goes on behind one.
abbrev reader : Reader (Unit {0})
reader = record { is_data = λ e. false; ends_with_error = false }

-- Two requests, the second of which is done first, and a message without a length.
abbrev steps : List (Step String (Unit {0}) Reply)
steps =
    read (ok (Message.request (request "hover" 1)))
    ∷ read (ok (Message.request (request "hover" 2)))
    ∷ polled 0 none
    ∷ polled 1 (some (ok "second"))
    ∷ read (err missing_content_length)
    ∷ polled 0 (some (ok "first"))
    ∷ []

abbrev start : Connection api channels_api ℕ Reply
start = connect idle no_waiters

served :
    map (λ r. r.id) (serve json router reader 4 steps start).output
    ≡ number (pos 2) ∷ null ∷ number (pos 1) ∷ []
unfolding serve Connection.serve_step connect step call route get call_normal
    Connection.is_in_progress insert call_handler result_response no_params from_parts
served = refl

served_in_order :
    map (λ r. r.id) (serve json router reader 1 steps start).output ≡ null ∷ number (pos 1) ∷ []
unfolding serve Connection.serve_step connect step call route get call_normal
    Connection.is_in_progress insert call_handler result_response no_params from_parts
served_in_order = refl

connect-IsOrdered_example :
    IsOrdered
      (serve json router reader 1 steps start).system
      (serve json router reader 1 steps start).output
connect-IsOrdered_example = connect-IsOrdered json router reader steps idle no_waiters

connect-IsComplete_example :
    let k' = serve json router reader 4 steps start in
    IsComplete (failures json router reader 4 steps start []) k'.system k'.output
connect-IsComplete_example = connect-IsComplete json router reader 4 steps idle no_waiters

serve-run_example :
    (serve json router reader 4 steps start).system
    ≡ run json router (events json router reader 4 steps start) start.system
serve-run_example = serve-run json router reader 4 steps start

-- Two requests have been read, and neither is done.
abbrev busy : Connection api channels_api ℕ Reply
busy = serve json router reader 2 (take 2 steps) start

serve-end_of_input_example :
    is_served (
      serve json router reader 2
        (end_of_input ∷ polls (λ i. ok "done") 0 (length busy.system.slots))
        busy)
    ≡ true
unfolding serve Connection.serve_step connect step call route get call_normal
serve-end_of_input_example =
    serve-end_of_input json router reader 2 (omega arith) (λ i. ok "done") busy refl

-- The server has read `exit`.
abbrev gone : Connection api channels_api ℕ Reply
gone = serve json router reader 4 (read (ok (Message.request (notification "exit"))) ∷ []) start

serve-exited_example :
    is_served (
      serve json router reader 4
        (read (ok (Message.request (request "hover" 3))) ∷ end_of_input ∷ polled 0 none ∷ [])
        gone)
    ≡ false
unfolding serve Connection.serve_step connect step call route get call_exit
serve-exited_example =
    serve-exited json router reader 4 (Message.request (request "hover" 3))
      (end_of_input ∷ polled 0 none ∷ []) gone refl refl refl

abbrev answer : Response String
answer = record { kind = ok_kind "yes"; id = number (pos 1) }

-- A server with two that wait for the same answer.
abbrev asking : Connection api channels_api ℕ Reply
asking =
    connect idle (record {
      waiters = (number (pos 1), 0 ∷ 1 ∷ []) ∷ [];
      channels = record closed { next = 2 };
    })

abbrev answered : Connection api channels_api ℕ Reply
answered = serve_step json router reader 4 (read (ok (response answer))) asking

read-IsServed_example :
    (answered.read_input ≡ reading)
    × IsServed (number (pos 1)) answer 0 (1 ∷ []) asking.waiters answered.waiters
unfolding connect get
read-IsServed_example =
    read-IsServed json router reader 4 asking answer refl refl 0 (1 ∷ []) (λ e. cc) refl refl

-- The same server with the service of a builder, before `initialize`.
abbrev built_start : Connection api channels_api ℕ (BackendReply json server)
built_start = connect fresh no_waiters

abbrev early : List (Step String (Unit {0}) (BackendReply json server))
early = read (ok (Message.request (request "initialized" 1))) ∷ polled 0 none ∷ []

built-output-IsCaused_example :
    let service = built json server tt customs in
    let k' = serve json service reader 4 early built_start in
    Perm k'.output (failures json service reader 4 early built_start [] ++ answers k'.system.slots)
    × All (IsAnswerTo (IsRead early)) (answers k'.system.slots)
built-output-IsCaused_example =
    built-output-IsCaused json server tt customs reader 4 api channels_api early fresh no_waiters
      customs-AreAnswering

built-serve_refused_example :
    (res : Option (Response String)) × Refuses (some (number (pos 1))) uninitialized res
    × HasRefused json
        (built json server tt customs)
        reader
        4
        built_start
        (request "initialized" 1)
        res
        (serve json (built json server tt customs) reader 4 early built_start)
unfolding parse_method_calls language_server connect
built-serve_refused_example =
    built-serve_refused json server tt customs reader 4 api channels_api 1
      (call_of initialized_method) (request "initialized" 1) none built_start refl (λ e. cc) refl
      (inl refl) refl (omega arith)

-- A server whose router is empty, and the document null, which is no message.
abbrev serde : SerdeJson
serde = documents nothing

abbrev empty : Router (Unit {0}) (BoxService Tree (Unit {0}) ℕ Reply)
empty = record { server = tt; methods = [] }

abbrev quiet : Connection api (numbered (Response Tree)) ℕ Reply
quiet = connect idle (record { waiters = []; channels = closed })
