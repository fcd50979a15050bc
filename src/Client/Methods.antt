-- ===== src/Client/Methods.antt =====
-- The messages that a server sends to its client: the methods of `Client` in src/service/client.rs.
-- The types of lsp_types, and how their values become JSON, are given.
use tower_lsp.Base.{
  String, Bool, true, not, ◌&&◌, ◌≡◌, List, [], ◌∷◌, Option, none, some, Result, ok, err, ◌>>=◌,
  if◌then◌else◌,
}
use tower_lsp.Base.Int.{ℤ}
use tower_lsp.JsonRpc.Error.{Error}
use tower_lsp.JsonRpc.Request.{from_notification}
use tower_lsp.JsonRpc.Response.{Response}
use tower_lsp.Service.Task.{Outcome}
use tower_lsp.Client.Oneshot.{OneshotApi}
use tower_lsp.Client.Requests.{
  Client, Call, call, send_request, send_request_unchecked, send_notification, request_result,
}

-- The JSON of each params type of lsp_types, from the fields that its struct literal has.
pub record LspTypes (Value : Type 0) : Type 1 where
  pub Registration : Type 0
  pub Unregistration : Type 0
  pub MessageType : Type 0
  pub MessageActionItem : Type 0
  pub ShowDocumentParams : Type 0
  pub ShowDocumentResult : Type 0
  pub Url : Type 0
  pub Diagnostic : Type 0
  pub ConfigurationItem : Type 0
  pub WorkspaceEdit : Type 0
  pub registration_params : List Registration → Value
  pub unregistration_params : List Unregistration → Value
  pub show_message_params : MessageType → String → Value
  pub log_message_params : MessageType → String → Value
  pub show_message_request_params : MessageType → String → Option (List MessageActionItem) → Value
  pub show_document_params : ShowDocumentParams → Value
  pub show_document_result : Value → Result ShowDocumentResult String
  pub success : ShowDocumentResult → Bool
  pub publish_diagnostics_params : Url → List Diagnostic → Option ℤ → Value
  pub configuration_params : List ConfigurationItem → Value
  pub apply_edit_params : WorkspaceEdit → Value
  -- the JSON of `()`
  pub unit_params : Value

-- `serde_json::Value`, by the tests of it that the code makes.
pub record Kinds (Value : Type 0) : Type 0 where
  pub is_null : Value → Bool
  pub is_array : Value → Bool
  pub is_object : Value → Bool
  pub array : List Value → Value
  pub is_array-array : (vs : List Value) → is_array (array vs) ≡ true

abbrev pub Requested : {Value : Type 0} → OneshotApi (Response Value) → Type 0
Requested {Value} api = Result (Call Value api.Sender) (Error Value) × Client api

abbrev pub Unchecked : {Value : Type 0} → OneshotApi (Response Value) → Type 0
Unchecked {Value} api = Call Value api.Sender × Client api

module _ {Value : Type 0} {api : OneshotApi (Response Value)} where
  unfoldable pub send_notification_unchecked : String → Value → Client api → Unchecked api
  unfolding call
  send_notification_unchecked name params = call (from_notification name params)

  unfoldable pub telemetry_event :
      {E : Type 0}
      → Kinds Value
      → Result Value E
      → Client api
      → Option (Call Value api.Sender) × Client api
  unfolding send_notification_unchecked
  -- nothing but a line in the log
  telemetry_event kinds (err e) c = (none, c)
  telemetry_event kinds (ok value) c =
      let params =
        if not (kinds.is_null value) && not (kinds.is_array value) && not (kinds.is_object value)
        then kinds.array (value ∷ [])
        else value in
      let (fut, c') = send_notification_unchecked "telemetry/event" params c in (some fut, c')

module _ {Value : Type 0} (types : LspTypes Value) {api : OneshotApi (Response Value)} where
  open types use {
    Registration, Unregistration, MessageType, MessageActionItem, ShowDocumentParams, Url,
    Diagnostic, ConfigurationItem, WorkspaceEdit,
  }

  unfoldable pub register_capability : List Registration → Client api → Requested api
  unfolding send_request
  register_capability registrations =
      send_request "client/registerCapability" (types.registration_params registrations)

  unfoldable pub unregister_capability : List Unregistration → Client api → Requested api
  unfolding send_request
  unregister_capability unregisterations =
      send_request "client/unregisterCapability" (types.unregistration_params unregisterations)

  unfoldable pub show_message : MessageType → String → Client api → Unchecked api
  unfolding send_notification_unchecked
  show_message typ message =
      send_notification_unchecked "window/showMessage" (types.show_message_params typ message)

  unfoldable pub show_message_request :
      MessageType → String → Option (List MessageActionItem) → Client api → Unchecked api
  unfolding send_request_unchecked
  show_message_request typ message actions =
      send_request_unchecked "window/showMessageRequest"
        (types.show_message_request_params typ message actions)

  unfoldable pub log_message : MessageType → String → Client api → Unchecked api
  unfolding send_notification_unchecked
  log_message typ message =
      send_notification_unchecked "window/logMessage" (types.log_message_params typ message)

  unfoldable pub show_document : ShowDocumentParams → Client api → Requested api
  unfolding send_request
  show_document params = send_request "window/showDocument" (types.show_document_params params)

  unfoldable pub code_lens_refresh : Client api → Requested api
  unfolding send_request
  code_lens_refresh = send_request "workspace/codeLens/refresh" types.unit_params

  unfoldable pub semantic_tokens_refresh : Client api → Requested api
  unfolding send_request
  semantic_tokens_refresh = send_request "workspace/semanticTokens/refresh" types.unit_params

  unfoldable pub inline_value_refresh : Client api → Requested api
  unfolding send_request
  inline_value_refresh = send_request "workspace/inlineValue/refresh" types.unit_params

  unfoldable pub inlay_hint_refresh : Client api → Requested api
  unfolding send_request
  inlay_hint_refresh = send_request "workspace/inlayHint/refresh" types.unit_params

  unfoldable pub workspace_diagnostic_refresh : Client api → Requested api
  unfolding send_request
  workspace_diagnostic_refresh = send_request "workspace/diagnostic/refresh" types.unit_params

  unfoldable pub publish_diagnostics :
      Url → List Diagnostic → Option ℤ → Client api → Option (Call Value api.Sender) × Client api
  unfolding send_notification
  publish_diagnostics uri diags version =
      send_notification "textDocument/publishDiagnostics"
        (types.publish_diagnostics_params uri diags version)

  unfoldable pub configuration : List ConfigurationItem → Client api → Requested api
  unfolding send_request
  configuration items = send_request "workspace/configuration" (types.configuration_params items)

  unfoldable pub workspace_folders : Client api → Requested api
  unfolding send_request
  workspace_folders = send_request "workspace/workspaceFolders" types.unit_params

  unfoldable pub apply_edit : WorkspaceEdit → Client api → Requested api
  unfolding send_request
  apply_edit edit = send_request "workspace/applyEdit" (types.apply_edit_params edit)

-- What `show_document` makes of the end of its request.
unfoldable pub show_document_result :
    {Value : Type 0} (types : LspTypes Value) → Outcome Value → Result Bool (Error Value)
unfolding request_result
show_document_result types o =
    request_result types.show_document_result o >>= λ response. ok (types.success response)
