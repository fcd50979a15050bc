-- ===== src/Client/Invocations.antt =====
-- The messages to the client as data: src/service/client.rs.
use tower_lsp.Base.{Bool, true, false, String, List, Option, none, some, Result, ok, err}
use tower_lsp.Base.Int.{ℤ}
use tower_lsp.JsonRpc.Response.{Response}
use tower_lsp.Client.Oneshot.{OneshotApi}
use tower_lsp.Client.Requests.{Client, Call}
use tower_lsp.Client.Methods.{
  LspTypes, Kinds, Requested, Unchecked, telemetry_event, register_capability,
  unregister_capability, show_message, show_message_request, log_message, show_document,
  code_lens_refresh, semantic_tokens_refresh, inline_value_refresh, inlay_hint_refresh,
  workspace_diagnostic_refresh, publish_diagnostics, configuration, workspace_folders, apply_edit,
}

module _ {Value : Type 0} (types : LspTypes Value) (E : Type 0) where
  open types use {
    Registration, Unregistration, MessageType, MessageActionItem, ShowDocumentParams, Url,
    Diagnostic, ConfigurationItem, WorkspaceEdit,
  }

  -- A call of a method of `Client` that sends a message.
  pub data Invocation : Type 0 where
    of_register_capability : List Registration → Invocation
    of_unregister_capability : List Unregistration → Invocation
    of_show_message : MessageType → String → Invocation
    of_show_message_request : MessageType → String → Option (List MessageActionItem) → Invocation
    of_log_message : MessageType → String → Invocation
    of_show_document : ShowDocumentParams → Invocation
    of_telemetry_event : Result Value E → Invocation
    of_code_lens_refresh : Invocation
    of_semantic_tokens_refresh : Invocation
    of_inline_value_refresh : Invocation
    of_inlay_hint_refresh : Invocation
    of_workspace_diagnostic_refresh : Invocation
    of_publish_diagnostics : Url → List Diagnostic → Option ℤ → Invocation
    of_configuration : List ConfigurationItem → Invocation
    of_workspace_folders : Invocation
    of_apply_edit : WorkspaceEdit → Invocation

  -- All but a telemetry event whose data does not serialize.
  abbrev pub IsSerializable : Invocation → Type 0
  IsSerializable (of_telemetry_event (err e)) = ⊥
  IsSerializable _ = Unit

  -- The methods of the protocol, by the documentation of the methods of `Client`.
  abbrev pub name_of : Invocation → String
  name_of (of_register_capability rs) = "client/registerCapability"
  name_of (of_unregister_capability us) = "client/unregisterCapability"
  name_of (of_show_message typ m) = "window/showMessage"
  name_of (of_show_message_request typ m actions) = "window/showMessageRequest"
  name_of (of_log_message typ m) = "window/logMessage"
  name_of (of_show_document params) = "window/showDocument"
  name_of (of_telemetry_event event) = "telemetry/event"
  name_of of_code_lens_refresh = "workspace/codeLens/refresh"
  name_of of_semantic_tokens_refresh = "workspace/semanticTokens/refresh"
  name_of of_inline_value_refresh = "workspace/inlineValue/refresh"
  name_of of_inlay_hint_refresh = "workspace/inlayHint/refresh"
  name_of of_workspace_diagnostic_refresh = "workspace/diagnostic/refresh"
  name_of (of_publish_diagnostics uri diags v) = "textDocument/publishDiagnostics"
  name_of (of_configuration items) = "workspace/configuration"
  name_of of_workspace_folders = "workspace/workspaceFolders"
  name_of (of_apply_edit edit) = "workspace/applyEdit"

  abbrev pub is_request : Invocation → Bool
  is_request (of_show_message typ m) = false
  is_request (of_log_message typ m) = false
  is_request (of_telemetry_event event) = false
  is_request (of_publish_diagnostics uri diags v) = false
  is_request _ = true

-- What a call leaves: the future that sends its message, if there is one, and the client.
abbrev pub Attempt : {Value : Type 0} → OneshotApi (Response Value) → Type 0
Attempt {Value} api = Option (Call Value api.Sender) × Client api

module _ {Value : Type 0} {api : OneshotApi (Response Value)} where
  abbrev pub of_requested : Requested api → Attempt api
  of_requested (ok fut, c) = (some fut, c)
  of_requested (err e, c) = (none, c)

  abbrev pub of_unchecked : Unchecked api → Attempt api
  of_unchecked (fut, c) = (some fut, c)

module _ {Value : Type 0} (types : LspTypes Value) (kinds : Kinds Value) {E : Type 0}
    {api : OneshotApi (Response Value)} where
  unfoldable pub invoke : Invocation types E → Client api → Attempt api
  invoke (of_register_capability rs) c = of_requested (register_capability types rs c)
  invoke (of_unregister_capability us) c = of_requested (unregister_capability types us c)
  invoke (of_show_message typ m) c = of_unchecked (show_message types typ m c)
  invoke (of_show_message_request typ m actions) c =
      of_unchecked (show_message_request types typ m actions c)
  invoke (of_log_message typ m) c = of_unchecked (log_message types typ m c)
  invoke (of_show_document params) c = of_requested (show_document types params c)
  invoke (of_telemetry_event data_) c = telemetry_event kinds data_ c
  invoke of_code_lens_refresh c = of_requested (code_lens_refresh types c)
  invoke of_semantic_tokens_refresh c = of_requested (semantic_tokens_refresh types c)
  invoke of_inline_value_refresh c = of_requested (inline_value_refresh types c)
  invoke of_inlay_hint_refresh c = of_requested (inlay_hint_refresh types c)
  invoke of_workspace_diagnostic_refresh c = of_requested (workspace_diagnostic_refresh types c)
  invoke (of_publish_diagnostics uri diags v) c = publish_diagnostics types uri diags v c
  invoke (of_configuration items) c = of_requested (configuration types items c)
  invoke of_workspace_folders c = of_requested (workspace_folders types c)
  invoke (of_apply_edit edit) c = of_requested (apply_edit types edit c)
