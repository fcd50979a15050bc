-- ===== src/Examples/Script.antt =====
-- The bodies of the methods of an example's backend, as the futures that `async` makes of them: they
-- call methods of `Client` in src/service/client.rs and wait for each. A call is made when the one
-- before it has ended, and polled from the next event on, of which there may be several in one poll
-- of the program.
use tower_lsp.Base.{String, Bool, List, [], ◌∷◌, ◌++◌, Option, none, some, Result, ok, err}
use tower_lsp.Base.Options.{◌>>=◌}
use tower_lsp.JsonRpc.Error.{Error}
use tower_lsp.JsonRpc.Request.{Request}
use tower_lsp.JsonRpc.Response.{Response}
use tower_lsp.Service.Task.{Poll, pending, ready, Outcome}
use tower_lsp.Client.Oneshot.{OneshotApi}
use tower_lsp.Client.Waiters.{insert_response}
use tower_lsp.Client.Requests.{
  Client, Call, sending, Sent, accepted, sent_by, poll_call, send_notification, request_result,
}
use tower_lsp.Client.Methods.{LspTypes, log_message, apply_edit}

-- What the examples use of lsp_types beside the types of the messages.
pub record ExampleTypes {Value : Type 0} (types : LspTypes Value) : Type 1 where
  pub InitializeResult : Type 0
  pub CompletionItem : Type 0
  pub ExecuteCommandParams : Type 0
  -- whether documents are synchronized incrementally, whether completion items are resolved, the characters that
  -- trigger completion, the commands, and whether workspace folders and their changes are known
  pub initialize_result : Bool → Bool → List String → List String → Bool → Bool → InitializeResult
  -- of commands alone
  pub command_result : List String → InitializeResult
  pub new_simple : String → String → CompletionItem
  pub command : ExecuteCommandParams → String
  -- its `Debug` form
  pub debug : ExecuteCommandParams → String
  pub info : types.MessageType
  pub error : types.MessageType
  pub default_edit : types.WorkspaceEdit
  -- the field of an `ApplyWorkspaceEditResponse`
  pub applied : Value → Result Bool String

module _ {Value : Type 0} (types : LspTypes Value) where
  open types use {MessageType, WorkspaceEdit}

  -- A body that returns an `A`: each call is followed by `.await`.
  pub data Script (A : Type 0) : Type 0 where
    returns : A → Script A
    log : MessageType → String → Script A → Script A
    notify : String → Value → Script A → Script A
    edit : WorkspaceEdit → (Result Bool (Error Value) → Script A) → Script A

-- A body that has returned, or that waits for a call.
pub data Frame {Value : Type 0} (types : LspTypes Value) (channels : OneshotApi (Response Value))
    (A : Type 0) : Type 0 where
  returned : A → Frame types channels A
  awaiting : Call Value channels.Sender → (Outcome Value → Script types A) → Frame types channels A

-- With the messages that the channel has taken.
pub record Running {Value : Type 0} (types : LspTypes Value)
    (channels : OneshotApi (Response Value)) (A : Type 0) : Type 0 where
  pub frame : Frame types channels A
  pub client : Client channels
  pub sent : List (Request Value)

-- A poll of the body, or an answer from the client.
pub data Event (Value : Type 0) : Type 0 where
  polled : Sent → Event Value
  delivered : Response Value → Event Value

-- The message that a poll of a call hands over.
unfoldable pub taken : {Value S : Type 0} → Sent → Call Value S → List (Request Value)
taken accepted (sending req waiter) = req ∷ []
taken _ _ = []

module _ {Value : Type 0} {types : LspTypes Value} (example : ExampleTypes types)
    {channels : OneshotApi (Response Value)} {A : Type 0} where
  abbrev begin_notified :
      (Client channels → List (Request Value) → Running types channels A)
      → Script types A
      → List (Request Value)
      → Option (Call Value channels.Sender)
      → Client channels
      → Running types channels A
  begin_notified rest next sent none c = rest c sent
  begin_notified rest next sent (some fut) c = record {
    frame = awaiting fut (λ o. next);
    client = c;
    sent = sent;
  }

  abbrev begin_edited :
      (Result Bool (Error Value)
        → Client channels
        → List (Request Value)
        → Running types channels A)
      → (Result Bool (Error Value) → Script types A)
      → List (Request Value)
      → Result (Call Value channels.Sender) (Error Value)
      → Client channels
      → Running types channels A
  unfolding request_result
  begin_edited rest next sent (err e) c = rest (err e) c sent
  begin_edited rest next sent (ok fut) c = record {
    frame = awaiting fut (λ o. next (request_result example.applied o));
    client = c;
    sent = sent;
  }

  -- Runs a body up to its next wait.
  unfoldable pub begin :
      Script types A → Client channels → List (Request Value) → Running types channels A
  unfolding log_message apply_edit send_notification request_result
  begin (returns a) c sent = record { frame = returned a; client = c; sent = sent }
  begin (log typ message next) c sent =
      let (fut, c') = log_message types typ message c in
      record { frame = awaiting fut (λ o. next); client = c'; sent = sent }
  begin (notify name params next) c sent =
      let (fut, c') = send_notification name params c in
      begin_notified (begin next) next sent fut c'
  begin (edit e next) c sent =
      let (fut, c') = apply_edit types e c in begin_edited (λ r. begin (next r)) next sent fut c'

  unfoldable pub after_poll :
      Poll (Call Value channels.Sender) (Outcome Value)
      → (Outcome Value → Script types A)
      → Client channels
      → List (Request Value)
      → Running types channels A
  unfolding begin
  after_poll (pending fut) next c sent = record {
    frame = awaiting fut next;
    client = c;
    sent = sent;
  }
  after_poll (ready o) next c sent = begin (next o) c sent

  unfoldable pub poll_frame :
      Sent
      → Frame types channels A
      → Client channels
      → List (Request Value)
      → Running types channels A
  unfolding after_poll poll_call taken
  poll_frame s (returned a) c sent = record { frame = returned a; client = c; sent = sent }
  poll_frame s (awaiting fut next) c sent =
      after_poll (poll_call (sent_by c s) c.pending fut) next c (sent ++ taken (sent_by c s) fut)

  -- `none` is a panic.
  unfoldable pub step : Event Value → Running types channels A → Option (Running types channels A)
  unfolding poll_frame insert_response
  step (polled s) t = some (poll_frame s t.frame t.client t.sent)
  step (delivered r) t = do
    p ← insert_response r t.client.pending
    some (record t { client = record t.client { pending = p } })

  unfoldable pub run :
      List (Event Value) → Running types channels A → Option (Running types channels A)
  unfolding step
  run [] t = some t
  run (e ∷ es) t = do t' ← step e t; run es t'
