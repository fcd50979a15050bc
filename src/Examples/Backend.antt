-- ===== src/Examples/Backend.antt =====
-- The backend of src/examples/tcp.rs, which src/examples/stdio.rs and src/examples/websocket.rs have
-- as well.
use Prim.Native.String.{◌++◌}
use tower_lsp.Base.{String, Bool, true, false, List, [], ◌∷◌, Option, none, some, Result, ok, err}
use tower_lsp.JsonRpc.Error.{Error, description}
use tower_lsp.Client.Methods.{LspTypes}
use tower_lsp.Examples.Script.{ExampleTypes, Script, returns, log, edit}

-- The `Display` instance of errors in src/jsonrpc/error.rs.
unfoldable pub display_error : {Value : Type 0} → Error Value → String
unfolding description
display_error e = (description e.code ++ ": ") ++ e.message

module _ {Value : Type 0} {types : LspTypes Value} (example : ExampleTypes types) where
  open example use {InitializeResult, CompletionItem, info, error}

  unfoldable pub initialize : Script types (Result InitializeResult (Error Value))
  initialize =
      returns
        (ok (example.initialize_result true false ("." ∷ []) ("dummy.do_something" ∷ []) true true))

  unfoldable pub initialized : Script types (Unit {0})
  initialized = log info "initialized!" (returns tt)

  unfoldable pub shutdown : Script types (Result (Unit {0}) (Error Value))
  shutdown = returns (ok tt)

  unfoldable pub did_change_workspace_folders : Script types (Unit {0})
  did_change_workspace_folders = log info "workspace folders changed!" (returns tt)

  unfoldable pub did_change_configuration : Script types (Unit {0})
  did_change_configuration = log info "configuration changed!" (returns tt)

  unfoldable pub did_change_watched_files : Script types (Unit {0})
  did_change_watched_files = log info "watched files have changed!" (returns tt)

  unfoldable pub did_open : Script types (Unit {0})
  did_open = log info "file opened!" (returns tt)

  unfoldable pub did_change : Script types (Unit {0})
  did_change = log info "file changed!" (returns tt)

  unfoldable pub did_save : Script types (Unit {0})
  did_save = log info "file saved!" (returns tt)

  unfoldable pub did_close : Script types (Unit {0})
  did_close = log info "file closed!" (returns tt)

  -- What is logged of the answer to the edit.
  unfoldable pub outcome_type : Result Bool (Error Value) → types.MessageType
  outcome_type (ok applied) = info
  outcome_type (err e) = error

  unfoldable pub outcome_text : Result Bool (Error Value) → String
  unfolding display_error
  outcome_text (ok true) = "applied"
  outcome_text (ok false) = "rejected"
  outcome_text (err e) = display_error e

  unfoldable pub execute_command : Script types (Result (Option Value) (Error Value))
  unfolding outcome_type outcome_text
  execute_command =
      log info "command executed!"
        (edit example.default_edit (λ r. log (outcome_type r) (outcome_text r) (returns (ok none))))

  unfoldable pub completion : Script types (Result (Option (List CompletionItem)) (Error Value))
  completion = returns (
      ok (
        some
          (example.new_simple "Hello" "Some detail" ∷ example.new_simple "Bye" "More detail" ∷ [])))
