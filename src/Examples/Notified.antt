-- ===== src/Examples/Notified.antt =====
-- The command of src/examples/custom_notification.rs.
use Prim.Native.String.{◌++◌ as append}
use tower_lsp.Base.{
  String, String_eq, ◌≡◌, refl, true, false, List, [], ◌∷◌, ◌++◌, Option, none, some, Result, ok,
  err, ◌==◌,
}
use tower_lsp.JsonRpc.Error.{Error, invalid_request_object}
use tower_lsp.JsonRpc.Request.{Request, from_notification}
use tower_lsp.JsonRpc.Response.{Response}
use tower_lsp.Client.Oneshot.{OneshotApi}
use tower_lsp.Client.Requests.{
  Client, accepted, can_send, call, register, poll_call, after_send, send_notification,
}
use tower_lsp.Client.Methods.{LspTypes}
use tower_lsp.Examples.Script.{
  ExampleTypes, Script, log, notify, returns, returned, polled, taken, begin, after_poll,
  poll_frame, step, run,
}
use tower_lsp.Examples.Executed.{run-next, run-returns, step-log}
use tower_lsp.Examples.CustomNotification.{
  CustomNotificationParams, new, custom_method, execute_command,
}

module _ {Value : Type 0} {types : LspTypes Value} (example : ExampleTypes types)
    {channels : OneshotApi (Response Value)} {A : Type 0} where
  -- A notification, once the channel takes it.
  step-notify :
      (name : String) (params : Value) (next : Script types A) (c : Client channels)
      (sent : List (Request Value))
      → can_send c.state ≡ true
      → c.closed ≡ false
      → step example (polled accepted) (begin example (notify name params next) c sent)
        ≡ some (begin example next c (sent ++ from_notification name params ∷ []))
  unfolding step begin poll_frame after_poll taken send_notification call register poll_call
      after_send from_notification
  step-notify name params next c sent may up = rw (may, up) refl

module _ {Value : Type 0} {types : LspTypes Value} (example : ExampleTypes types)
    (to_value : CustomNotificationParams → Value) {channels : OneshotApi (Response Value)}
    (params : example.ExecuteCommandParams) (c : Client channels) where
  -- The command sends the notification and logs its parameters, in this order, and returns.
  pub execute_command_known :
      (example.command params == "custom.notification") ≡ true
      → can_send c.state ≡ true
      → c.closed ≡ false
      → run example
          (polled accepted ∷ polled accepted ∷ [])
          (begin example (execute_command example to_value params) c [])
        ≡ some (record {
          frame = returned (ok none);
          client = c;
          sent =
              from_notification "custom/notification" (to_value (new "Hello" "Message"))
              ∷ from_notification "window/logMessage" (
                  types.log_message_params example.info
                    (append "Command executed with params: " (example.debug params)))
              ∷ [];
        })
  unfolding execute_command custom_method
  execute_command_known known may up =
      let shown : String = append "Command executed with params: " (example.debug params) in
      let rest : Script types (Result (Option Value) (Error Value)) =
        log example.info shown (returns (ok none)) in
      let first = from_notification "custom/notification" (to_value (new "Hello" "Message")) in
      rw known (
        run-next example (polled accepted) _ _
          (step-notify example "custom/notification" (to_value (new "Hello" "Message")) rest c []
            may up)
          (run-next example (polled accepted) _ _
            (step-log example example.info shown (returns (ok none)) c (first ∷ []) up)
            (run-returns example (ok none) c _)))

  -- Any other command sends nothing.
  pub execute_command_unknown :
      (example.command params == "custom.notification") ≡ false
      → run example [] (begin example (execute_command example to_value params) c [])
        ≡ some (record { frame = returned (err invalid_request_object); client = c; sent = [] })
  unfolding execute_command
  execute_command_unknown unknown =
      rw unknown (run-returns example (err invalid_request_object) c [])
