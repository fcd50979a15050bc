-- ===== src/Client/Permissions.antt =====
-- Which messages are sent in which state of the server: src/service/client.rs.
use tower_lsp.Base.{
  Bool, if◌then◌else◌, String, true, false, ◌≡◌, refl, ◌⊎◌, inl, inr, none, some, is_some, ok, err,
}
use tower_lsp.JsonRpc.Request.{from_notification, from_request}
use tower_lsp.JsonRpc.Response.{Response}
use tower_lsp.Base.Int.{pos}
use tower_lsp.JsonRpc.RequestId.{number}
use tower_lsp.Client.Oneshot.{OneshotApi}
use tower_lsp.Client.Requests.{
  Client, sending, waiting, call, register, next_request_id, send_request, send_request_unchecked,
  send_notification, can_send,
}
use tower_lsp.Client.Methods.{
  LspTypes, Kinds, telemetry_event, send_notification_unchecked, register_capability,
  unregister_capability, show_message, show_message_request, log_message, show_document,
  code_lens_refresh, semantic_tokens_refresh, inline_value_refresh, inlay_hint_refresh,
  workspace_diagnostic_refresh, publish_diagnostics, configuration, workspace_folders, apply_edit,
}
use tower_lsp.Client.Invocations.{
  Invocation, IsSerializable, name_of, is_request, Attempt, invoke, of_apply_edit,
  of_code_lens_refresh, of_configuration, of_inlay_hint_refresh, of_inline_value_refresh,
  of_log_message, of_publish_diagnostics, of_register_capability, of_requested,
  of_semantic_tokens_refresh, of_show_document, of_show_message, of_show_message_request,
  of_telemetry_event, of_unregister_capability, of_workspace_diagnostic_refresh,
  of_workspace_folders,
}

-- The messages that a server may send before it is initialized.
abbrev pub IsEarly : String → Type 0
IsEarly name =
    (name ≡ "window/showMessage")
    ⊎ (name ≡ "window/showMessageRequest")
    ⊎ (name ≡ "window/logMessage")
    ⊎ (name ≡ "telemetry/event")

module _ {Value : Type 0} {api : OneshotApi (Response Value)} where
  -- A message that may be sent early is sent; or nothing, and the client is left as it was.
  abbrev pub IsRestrained : Client api → Attempt api → Type 0
  IsRestrained c (none, c') = c' ≡ c
  IsRestrained c (some (sending req w), c') = IsEarly req.method
  IsRestrained c (some (waiting tx), c') = ⊥

  send_request-IsRestrained :
      (name : String) (params : Value) (c : Client api)
      → can_send c.state ≡ false
      → IsRestrained c (of_requested (send_request name params c))
  unfolding send_request
  send_request-IsRestrained name params c early = rw (early) refl

  send_notification-IsRestrained :
      (name : String) (params : Value) (c : Client api)
      → can_send c.state ≡ false
      → IsRestrained c (send_notification name params c)
  unfolding send_notification
  send_notification-IsRestrained name params c early = rw (early) refl

  -- A message of this name is sent: a request under the next number, for which a waiter is
  -- registered, or a notification.
  abbrev pub IsSentAs : String → Bool → Client api → Attempt api → Type 0
  IsSentAs name is_request c (some (sending req w), c') =
      (req.method ≡ name)
      × (req.id ≡ (if is_request then some (number (pos c.request_id)) else none))
      × (is_some w ≡ is_request)
  IsSentAs name is_request c _ = ⊥

  send_request-IsSentAs :
      (name : String) (params : Value) (c : Client api)
      → can_send c.state ≡ true
      → IsSentAs name true c (of_requested (send_request name params c))
  unfolding send_request send_request_unchecked next_request_id call register from_request
  send_request-IsSentAs name params c there = rw (there) (refl, refl, refl)

  send_notification-IsSentAs :
      (name : String) (params : Value) (c : Client api)
      → can_send c.state ≡ true
      → IsSentAs name false c (send_notification name params c)
  unfolding send_notification call register from_notification
  send_notification-IsSentAs name params c there = rw (there) (refl, refl, refl)

module _ {Value : Type 0} (types : LspTypes Value) (kinds : Kinds Value) {E : Type 0}
    {api : OneshotApi (Response Value)} where
  -- In a state in which messages may not be sent to the client, each method of `Client` that
  -- sends one message of its own either sends one of `window/showMessage`,
  -- `window/showMessageRequest`, `window/logMessage` and `telemetry/event`, or sends nothing and
  -- leaves the client as it was: it takes no number and registers no waiter. This is not about
  -- `next_request_id`, which takes a number in any state, nor about `call` of the `Service`
  -- instance, which sends any request in any state.
  pub invoke-IsRestrained :
      (m : Invocation types E) (c : Client api)
      → can_send c.state ≡ false
      → IsRestrained c (invoke types kinds m c)
  unfolding invoke call register_capability unregister_capability show_document telemetry_event
      code_lens_refresh semantic_tokens_refresh inline_value_refresh inlay_hint_refresh
      workspace_diagnostic_refresh publish_diagnostics configuration workspace_folders apply_edit
      show_message show_message_request log_message send_notification_unchecked
      send_request_unchecked from_notification from_request next_request_id register
  invoke-IsRestrained (of_register_capability rs) c early = send_request-IsRestrained _ _ c early
  invoke-IsRestrained (of_unregister_capability us) c early = send_request-IsRestrained _ _ c early
  invoke-IsRestrained (of_show_message typ m) c early = inl refl
  invoke-IsRestrained (of_show_message_request typ m actions) c early = inr (inl refl)
  invoke-IsRestrained (of_log_message typ m) c early = inr (inr (inl refl))
  invoke-IsRestrained (of_show_document params) c early = send_request-IsRestrained _ _ c early
  invoke-IsRestrained (of_telemetry_event (ok v)) c early = inr (inr (inr refl))
  invoke-IsRestrained (of_telemetry_event (err e)) c early = refl
  invoke-IsRestrained of_code_lens_refresh c early = send_request-IsRestrained _ _ c early
  invoke-IsRestrained of_semantic_tokens_refresh c early = send_request-IsRestrained _ _ c early
  invoke-IsRestrained of_inline_value_refresh c early = send_request-IsRestrained _ _ c early
  invoke-IsRestrained of_inlay_hint_refresh c early = send_request-IsRestrained _ _ c early
  invoke-IsRestrained of_workspace_diagnostic_refresh c early =
      send_request-IsRestrained _ _ c early
  invoke-IsRestrained (of_publish_diagnostics uri diags v) c early =
      send_notification-IsRestrained _ _ c early
  invoke-IsRestrained (of_configuration items) c early = send_request-IsRestrained _ _ c early
  invoke-IsRestrained of_workspace_folders c early = send_request-IsRestrained _ _ c early
  invoke-IsRestrained (of_apply_edit edit) c early = send_request-IsRestrained _ _ c early

  -- In a state in which messages may be sent to the client, each method of `Client` leaves a
  -- future that sends its message under the name of its documentation, unless it is a telemetry
  -- event whose data does not serialize. A request has the next number as its identifier, and a
  -- waiter is registered for it; a notification has neither.
  pub invoke-IsSentAs :
      (m : Invocation types E) (c : Client api)
      → can_send c.state ≡ true
      → IsSerializable types E m
      → IsSentAs (name_of types E m) (is_request types E m) c (invoke types kinds m c)
  unfolding invoke call register_capability unregister_capability show_document telemetry_event
      code_lens_refresh semantic_tokens_refresh inline_value_refresh inlay_hint_refresh
      workspace_diagnostic_refresh publish_diagnostics configuration workspace_folders apply_edit
      show_message show_message_request log_message send_notification_unchecked
      send_request_unchecked from_notification from_request next_request_id register
  invoke-IsSentAs (of_register_capability rs) c there h = send_request-IsSentAs _ _ c there
  invoke-IsSentAs (of_unregister_capability us) c there h = send_request-IsSentAs _ _ c there
  invoke-IsSentAs (of_show_message typ m) c there h = (refl, refl, refl)
  invoke-IsSentAs (of_show_message_request typ m actions) c there h = (refl, refl, refl)
  invoke-IsSentAs (of_log_message typ m) c there h = (refl, refl, refl)
  invoke-IsSentAs (of_show_document params) c there h = send_request-IsSentAs _ _ c there
  invoke-IsSentAs (of_telemetry_event (ok v)) c there h = (refl, refl, refl)
  invoke-IsSentAs (of_telemetry_event (err e)) c there h = absurd h
  invoke-IsSentAs of_code_lens_refresh c there h = send_request-IsSentAs _ _ c there
  invoke-IsSentAs of_semantic_tokens_refresh c there h = send_request-IsSentAs _ _ c there
  invoke-IsSentAs of_inline_value_refresh c there h = send_request-IsSentAs _ _ c there
  invoke-IsSentAs of_inlay_hint_refresh c there h = send_request-IsSentAs _ _ c there
  invoke-IsSentAs of_workspace_diagnostic_refresh c there h = send_request-IsSentAs _ _ c there
  invoke-IsSentAs (of_publish_diagnostics uri diags v) c there h =
      send_notification-IsSentAs _ _ c there
  invoke-IsSentAs (of_configuration items) c there h = send_request-IsSentAs _ _ c there
  invoke-IsSentAs of_workspace_folders c there h = send_request-IsSentAs _ _ c there
  invoke-IsSentAs (of_apply_edit edit) c there h = send_request-IsSentAs _ _ c there
