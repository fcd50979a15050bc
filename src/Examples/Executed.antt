-- ===== src/Examples/Executed.antt =====
-- The command of src/examples/tcp.rs, src/examples/stdio.rs and src/examples/websocket.rs.
use mathlib.Core.List.{append-nil}
use tower_lsp.Base.{
  ◌+◌, ◌%◌, String, ◌≡◌, refl, true, false, Bool, List, [], ◌∷◌, ◌++◌, Option, none, some, Result,
  ok,
}
use tower_lsp.Base.Int.{pos}
use tower_lsp.JsonRpc.RequestId.{RequestId, number}
use tower_lsp.JsonRpc.Error.{Error}
use tower_lsp.JsonRpc.Request.{Request, from_request, from_notification}
use tower_lsp.JsonRpc.Response.{Response, from_parts}
use tower_lsp.Client.Oneshot.{OneshotApi}
use tower_lsp.Client.Waiters.{Pending, wait, insert_response}
use tower_lsp.Client.Waiters.Order.{queue}
use tower_lsp.Client.Requests.{
  Client, u32_mod, Sent, blocked, failed, accepted, sent_by, waiting, can_send, call, register,
  send_request, send_request_unchecked, next_request_id, poll_call, after_send, read_answer,
  request_result,
}
use tower_lsp.Client.Requests.Answered.{insert_response-waited, id-from_parts}
use tower_lsp.Client.Methods.{LspTypes, log_message, apply_edit, send_notification_unchecked}
use tower_lsp.Examples.Script.{
  ExampleTypes, Script, log, edit, returns, returned, awaiting, Running, Event, polled, delivered,
  taken, begin, after_poll, poll_frame, step, run,
}
use tower_lsp.Examples.Backend.{execute_command, outcome_type, outcome_text}

taken-waiting : {Value S : Type 0} (s : Sent) (tx : S) → taken {Value = Value} s (waiting tx) ≡ []
unfolding taken
taken-waiting blocked tx = refl
taken-waiting failed tx = refl
taken-waiting accepted tx = refl

-- A client that waits for an answer to its next request, in a table `p`.
abbrev asking :
    {Value : Type 0} {channels : OneshotApi (Response Value)}
    → Client channels
    → Pending channels
    → Client channels
asking c p = record c { request_id = (c.request_id + 1) % u32_mod; pending = p }

module _ {Value : Type 0} {types : LspTypes Value} (example : ExampleTypes types)
    {channels : OneshotApi (Response Value)} {A : Type 0} where
  pub run-next :
      (e : Event Value) (es : List (Event Value)) (t : Running types channels A)
      {t' u : Running types channels A}
      → step example e t ≡ some t'
      → run example es t' ≡ some u
      → run example (e ∷ es) t ≡ some u
  unfolding run
  run-next e es t h k = rw h k

  pub run-returns :
      (a : A) (c : Client channels) (sent : List (Request Value))
      → run example [] (begin example (returns a) c sent)
        ≡ some (record { frame = returned a; client = c; sent = sent })
  unfolding run begin
  run-returns a c sent = refl

  -- A message that is logged, once the channel takes it.
  pub step-log :
      (typ : types.MessageType) (message : String) (next : Script types A) (c : Client channels)
      (sent : List (Request Value))
      → c.closed ≡ false
      → step example (polled accepted) (begin example (log typ message next) c sent)
        ≡ some (
            begin example next c (
              sent
              ++ from_notification "window/logMessage" (types.log_message_params typ message) ∷ []))
  unfolding step begin poll_frame after_poll taken log_message send_notification_unchecked call
      register poll_call after_send from_notification
  step-log typ message next c sent up = rw up refl

  module _ (e : types.WorkspaceEdit) (next : Result Bool (Error Value) → Script types A)
      (c : Client channels) where
    abbrev request : Request Value
    request =
        from_request "workspace/applyEdit" (number (pos c.request_id)) (types.apply_edit_params e)

    abbrev waits_for : List (Request Value) → Pending channels → Running types channels A
    waits_for sent p = record {
      frame =
          awaiting (waiting (wait (number (pos c.request_id)) c.pending).0)
            (λ o. next (request_result example.applied o));
      client = asking c p;
      sent = sent;
    }

    step-edit :
        (sent : List (Request Value))
        → can_send c.state ≡ true
        → c.closed ≡ false
        → step example (polled accepted) (begin example (edit e next) c sent)
          ≡ some (waits_for (sent ++ request ∷ []) (wait (number (pos c.request_id)) c.pending).1)
    unfolding step begin poll_frame after_poll taken apply_edit send_request send_request_unchecked
        next_request_id call register poll_call after_send read_answer from_request wait
    step-edit sent may up =
        let empty = channels.channel_empty c.pending.channels in
        rw (may, up, empty, read_answer) refl

    step-delivered :
        (sent : List (Request Value)) (r : Response Value) (p p' : Pending channels)
        → insert_response r p ≡ some p'
        → step example (delivered r) (waits_for sent p) ≡ some (waits_for sent p')
    unfolding step
    step-delivered sent r p p' e = rw e refl

    step-answered :
        (s : Sent) (sent : List (Request Value)) (r : Response Value) (p : Pending channels)
        → channels.received p.channels (wait (number (pos c.request_id)) c.pending).0 ≡ some r
        → step example (polled s) (waits_for sent p)
          ≡ some (
              begin example (next (request_result example.applied (ok (some r)))) (asking c p) sent)
    unfolding step poll_frame after_poll poll_call read_answer
    step-answered s sent r p e =
        rw
          (
            taken-waiting (sent_by (asking c p) s) (wait (number (pos c.request_id)) c.pending).0,
            append-nil sent,
          )
          (rw (e, read_answer) refl)

module _ {Value : Type 0} {types : LspTypes Value} (example : ExampleTypes types)
    {channels : OneshotApi (Response Value)} (c : Client channels)
    (body : Result Value (Error Value)) where
  open example use {info}

  -- What the command does with the answer.
  abbrev report : Result Bool (Error Value) → Script types (Result (Option Value) (Error Value))
  unfolding outcome_type outcome_text
  report r = log (outcome_type example r) (outcome_text example r) (returns (ok none))

  -- The command of the examples tcp.rs, stdio.rs and websocket.rs, with a client that may send
  -- requests, is not closed and has nobody waiting for its next identifier: once the channel has
  -- taken its two messages, the answer has come in and the channel takes the third, it has
  -- returned `Ok(None)`. It has sent, in this order and nothing else, a message that says that
  -- the command was executed, the request `workspace/applyEdit` under the next identifier, and a
  -- message with the outcome of this request.
  pub execute_command-answered :
      (s : Sent)
      → can_send c.state ≡ true
      → c.closed ≡ false
      → queue (number (pos c.request_id)) c.pending ≡ []
      → let answer = from_parts (number (pos c.request_id)) body in
        let result = request_result example.applied (ok (some answer)) in
        (t : Running types channels (Result (Option Value) (Error Value))) × (run example
            (polled accepted ∷ polled accepted ∷ delivered answer ∷ polled s ∷ polled accepted ∷ [])
            (begin example (execute_command example) c [])
          ≡ some t)
        × (t.frame ≡ returned (ok none))
        × (t.sent
            ≡ from_notification "window/logMessage"
                (types.log_message_params info "command executed!")
              ∷ from_request "workspace/applyEdit"
                  (number (pos c.request_id))
                  (types.apply_edit_params example.default_edit)
              ∷ from_notification "window/logMessage" (
                  types.log_message_params
                    (outcome_type example result)
                    (outcome_text example result))
              ∷ [])
  unfolding execute_command report
  execute_command-answered s may up none_waits =
      let id : RequestId = number (pos c.request_id) in
      let (p', inserted, got) =
        insert_response-waited id (from_parts id body) c.pending (id-from_parts id body) (λ e. cc)
          none_waits in
      let note =
        from_notification "window/logMessage" (types.log_message_params info "command executed!") in
      let req =
        from_request "workspace/applyEdit" id (types.apply_edit_params example.default_edit) in
      let result = request_result example.applied (ok (some (from_parts id body))) in
      let last =
        from_notification "window/logMessage"
          (types.log_message_params (outcome_type example result) (outcome_text example result)) in
      let t : Running types channels (Result (Option Value) (Error Value)) = record {
        frame = returned (ok none);
        client = asking c p';
        sent = note ∷ req ∷ last ∷ [];
      } in
      (
        t,
        run-next example (polled accepted) _ _
            (step-log example info "command executed!" (edit example.default_edit report) c [] up)
            (run-next example (polled accepted) _ _
              (step-edit example example.default_edit report c (note ∷ []) may up)
              (run-next example (delivered (from_parts id body)) _ _
                (step-delivered example example.default_edit report c (note ∷ req ∷ [])
                  (from_parts id body) _ p' inserted)
                (run-next example (polled s) _ _
                  (step-answered example example.default_edit report c s (note ∷ req ∷ [])
                    (from_parts id body) p' got)
                  (run-next example (polled accepted) _ _
                    (step-log example (outcome_type example result) (outcome_text example result)
                      (returns (ok none)) (asking c p') (note ∷ req ∷ []) up)
                    (run-returns example (ok none) (asking c p') (note ∷ req ∷ last ∷ [])))))),
        refl,
        refl,
      )
