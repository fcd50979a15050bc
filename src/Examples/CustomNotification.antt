-- ===== src/Examples/CustomNotification.antt =====
-- The backend of src/examples/custom_notification.rs.
use Prim.Native.String.{◌++◌}
use tower_lsp.Base.{String, String_eq, [], ◌∷◌, Option, none, Result, ok, err, ◌==◌, if◌then◌else◌}
use tower_lsp.JsonRpc.Error.{Error, invalid_request_object}
use tower_lsp.Client.Methods.{LspTypes}
use tower_lsp.Examples.Script.{ExampleTypes, Script, returns, log, notify}

pub record CustomNotificationParams : Type 0 where
  pub title : String
  pub message : String

unfoldable pub new : String → String → CustomNotificationParams
new title message = record { title = title; message = message }

-- `CustomNotification::METHOD`
unfoldable pub custom_method : String
custom_method = "custom/notification"

module _ {Value : Type 0} {types : LspTypes Value} (example : ExampleTypes types)
    (to_value : CustomNotificationParams → Value) where
  open example use {InitializeResult, ExecuteCommandParams, info}

  unfoldable pub initialize : Script types (Result InitializeResult (Error Value))
  initialize = returns (ok (example.command_result ("custom.notification" ∷ [])))

  unfoldable pub shutdown : Script types (Result (Unit {0}) (Error Value))
  shutdown = returns (ok tt)

  unfoldable pub execute_command :
      ExecuteCommandParams → Script types (Result (Option Value) (Error Value))
  unfolding new custom_method
  execute_command params =
      if example.command params == "custom.notification"
      then notify custom_method (to_value (new "Hello" "Message"))
          (log info ("Command executed with params: " ++ example.debug params) (returns (ok none)))
      else returns (err invalid_request_object)
