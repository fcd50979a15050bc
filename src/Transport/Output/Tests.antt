-- ===== src/Transport/Output/Tests.antt =====
-- A server that prints an answer.
use tower_lsp.Base.{
  ℕ, String, false, ◌≡◌, refl, List, [], ◌∷◌, ◌++◌, some, ok, arith, length, map, take, ◌-◌,
}
use tower_lsp.Base.Int.{pos}
use tower_lsp.JsonRpc.RequestId.{number}
use tower_lsp.JsonRpc.Response.{ok_kind, from_parts}
use tower_lsp.JsonRpc.Message.{Message, response, request}
use tower_lsp.JsonRpc.Router.{result_response, route, call_handler, no_params}
use tower_lsp.Base.Map.{get, insert}
use tower_lsp.Service.Layers.{call_normal}
use tower_lsp.Service.Lsp.{call}
use tower_lsp.Service.System.{step}
use tower_lsp.Service.Polling.{poll}
use tower_lsp.Service.Samples.{json, api, router, Reply, notification, idle}
use tower_lsp.Service.Samples
use tower_lsp.Client.Samples.{channels_api, closed}
use tower_lsp.Codec.Wire.{Wire}
use tower_lsp.Codec.Samples.{parse_headers, find}
use tower_lsp.Codec.Utf8.{from_utf8}
use tower_lsp.Codec.Encode.{header_of}
use tower_lsp.Codec.Decimal.{print_usize}
use tower_lsp.Codec.Decode.{default}
use tower_lsp.Codec.Stream.{IsReadable, decode_times}
use tower_lsp.Transport.Connection.{
  Reader, Connection, read, end_of_input, polled, connect, is_in_progress,
}
use tower_lsp.Transport.Completion.{is_output_printed}
use tower_lsp.Transport.Output.{
  Output, Event, served, print_response, output_failed, print_nothing, ended, panicked,
  serve_output,
}
use tower_lsp.Transport.Output.Printed.{responses_in}
use tower_lsp.Transport.Output.Received.{run-decode_times}
use tower_lsp.Transport.Output.Over.{run_ended}
use tower_lsp.Transport.Output.Drained.{drain, run_drained}
use tower_lsp.Transport.Output.Failed.{served-panicked}

-- serde_json finds one kind of error, and the stream goes on behind one.
abbrev reader : Reader (Unit {0})
reader = record { is_data = λ e. false; ends_with_error = false }

abbrev answer : Message String
answer = response (record { kind = ok_kind "first"; id = number (pos 1) })

-- Every message is printed as "{}", which is read as the answer.
abbrev wire : Wire (Message String) (Unit {0})
wire = record {
  parse_headers = parse_headers;
  find = find;
  from_str = λ text. ok answer;
  to_string = λ m. ok (123 ∷ 125 ∷ []);
}

abbrev start : Connection api channels_api ℕ Reply
start = connect idle (record { waiters = []; channels = closed })

abbrev asked : List (Event String (Unit {0}) Reply)
asked =
    served (read (ok (request (Samples.request "hover" 1))))
    ∷ served (polled 0 (some (ok "first")))
    ∷ []

abbrev printing : List (Event String (Unit {0}) Reply)
printing = asked ++ print_response ∷ []

abbrev printed : Output api channels_api ℕ Reply
printed = serve_output json router reader 4 wire printing (print_nothing start)

answer-IsReadable : IsReadable wire answer
unfolding parse_headers from_utf8 header_of print_usize
answer-IsReadable = record {
  msg = 123 ∷ 125 ∷ [];
  text = 123 ∷ 125 ∷ [];
  printed = refl;
  valid = refl;
  parsed = refl;
  filled = λ e. cc;
  bound = omega arith;
  framed = λ rest. refl;
}

run-decode_times_example :
    (decode_times wire (length printed.printed) default (printed.written ++ 67 ∷ [])
      ≡ some (map (λ m. ok (some m)) printed.printed, default, 67 ∷ []))
    × (responses_in printed.printed ≡ take printed.taken printed.connection.output)
unfolding serve_output print_nothing connect step call route get call_normal is_in_progress insert
    call_handler result_response no_params from_parts
run-decode_times_example =
    run-decode_times json router reader 4 wire printing start refl (answer-IsReadable, tt) (67 ∷ [])

abbrev finishing : List (Event String (Unit {0}) Reply)
finishing = asked ++ served end_of_input ∷ []

abbrev finished : Output api channels_api ℕ Reply
finished = serve_output json router reader 4 wire finishing (print_nothing start)

abbrev drained : Output api channels_api ℕ Reply
drained =
    serve_output json router reader 4 wire
      (drain (length finished.connection.output - finished.taken)) finished

run_drained_example :
    (drained.print_output ≡ ended) × (responses_in drained.printed ≡ drained.connection.output)
unfolding serve_output print_nothing connect step call route get call_normal is_output_printed
    is_in_progress insert call_handler result_response no_params from_parts
run_drained_example =
    run_drained json router reader 4 wire (λ r. (123 ∷ 125 ∷ [], refl)) finishing start refl refl
      refl

abbrev all_events : List (Event String (Unit {0}) Reply)
all_events = finishing ++ drain 1

run_ended_example :
    let o = serve_output json router reader 4 wire all_events (print_nothing start) in
    responses_in o.printed ≡ o.connection.output
unfolding serve_output print_nothing connect step call route get call_normal is_in_progress insert
    call_handler result_response no_params from_parts
run_ended_example = run_ended json router reader 4 wire all_events start refl refl

-- The output fails while a request is being answered.
abbrev broken : Output api channels_api ℕ Reply
broken =
    serve_output json router reader 4 wire
      (served (read (ok (request (Samples.request "hover" 1)))) ∷ output_failed ∷ [])
      (print_nothing start)

served-panicked_example :
    (serve_output json router reader 4 wire
      (served (polled 0 (some (ok "first"))) ∷ print_response ∷ [])
      broken).print_output
    ≡ panicked
unfolding serve_output print_nothing connect step call route get call_normal is_in_progress insert
    call_handler result_response no_params from_parts poll
served-panicked_example =
    served-panicked json router reader 4 wire broken 0 (some (ok "first")) _ _ _ refl refl refl refl
      (print_response ∷ [])
