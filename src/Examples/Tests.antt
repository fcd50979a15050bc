-- ===== src/Examples/Tests.antt =====
-- The command of the examples for a client that has applied the edit.
use tower_lsp.Base.{String, String_eq, ◌≡◌, refl, [], ◌∷◌, Option, none, some, Result, ok, ◌==◌}
use tower_lsp.Base.Int.{pos}
use tower_lsp.Base.Map.{get}
use tower_lsp.JsonRpc.RequestId.{number}
use tower_lsp.JsonRpc.Error.{Error}
use tower_lsp.JsonRpc.Request.{from_request, from_notification}
use tower_lsp.JsonRpc.Response.{Response, from_parts, into_parts}
use tower_lsp.Client.Requests.{accepted, blocked, can_send, request_result}
use tower_lsp.Client.Samples.{channels_api, client, lsp_types}
use tower_lsp.Examples.Script.{ExampleTypes, Running, returned, polled, delivered, begin, run}
use tower_lsp.Examples.Backend.{execute_command, outcome_type, outcome_text}
use tower_lsp.Examples.Executed.{execute_command-answered}

abbrev example : ExampleTypes lsp_types
example = record {
  InitializeResult = String;
  CompletionItem = String;
  ExecuteCommandParams = String;
  initialize_result = λ s r triggers commands f n. "";
  command_result = λ commands. "";
  new_simple = λ label detail. label;
  command = λ p. p;
  debug = λ p. p;
  info = "info";
  error = "error";
  default_edit = "{}";
  applied = λ v. ok (v == "yes");
}

abbrev answer : Response String
answer = from_parts (number (pos 0)) (ok "yes")

execute_command-answered_example :
    let result = request_result example.applied (ok (some answer)) in
    (t : Running lsp_types channels_api (Result (Option String) (Error String))) × (run example
        (polled accepted
          ∷ polled accepted
          ∷ delivered answer
          ∷ polled blocked
          ∷ polled accepted
          ∷ [])
        (begin example (execute_command example) client [])
      ≡ some t)
    × (t.frame ≡ returned (ok none))
    × (t.sent
        ≡ from_notification "window/logMessage"
            (lsp_types.log_message_params "info" "command executed!")
          ∷ from_request "workspace/applyEdit" (number (pos 0)) (lsp_types.apply_edit_params "{}")
          ∷ from_notification "window/logMessage" (
              lsp_types.log_message_params
                (outcome_type example result)
                (outcome_text example result))
          ∷ [])
unfolding can_send get
execute_command-answered_example =
    execute_command-answered example client (ok "yes") blocked refl refl refl

applied_logged :
    outcome_text example (request_result example.applied (ok (some answer))) ≡ "applied"
unfolding outcome_text request_result from_parts into_parts
applied_logged = refl
