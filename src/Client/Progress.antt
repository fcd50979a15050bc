-- ===== src/Client/Progress.antt =====
-- `$/progress` notifications: src/service/client/progress.rs. The types of lsp_types that it builds
-- are records with the fields that it names; how they become JSON is given, as `to_value`.
pub mod Built
pub mod Sessions
mod Tests
use tower_lsp.Base.{ℕ, String, Bool, true, false, Option, none, some}
use tower_lsp.JsonRpc.Response.{Response}
use tower_lsp.Client.Oneshot.{OneshotApi}
use tower_lsp.Client.Requests.{Client, Call, send_notification}

-- The empty enums that a stream is marked with.
pub data Bound : Type 0 where
  bounded unbounded : Bound

pub data Cancel : Type 0 where
  cancellable not_cancellable : Cancel

pub record WorkDoneProgressBegin : Type 0 where
  pub title : String
  pub cancellable : Option Bool
  pub message : Option String
  pub percentage : Option ℕ

pub record WorkDoneProgressReport : Type 0 where
  pub cancellable : Option Bool
  pub message : Option String
  pub percentage : Option ℕ

pub data WorkDoneProgress : Type 0 where
  begin_value : WorkDoneProgressBegin → WorkDoneProgress
  report_value : WorkDoneProgressReport → WorkDoneProgress
  end_value : Option String → WorkDoneProgress

pub record ProgressParams (Token : Type 0) : Type 0 where
  pub token : Token
  pub value : WorkDoneProgress

-- The client is passed to each operation, as its state may have changed since the last one.
pub record Progress (Token : Type 0) (b : Bound) (c : Cancel) : Type 0 where
  pub token : Token
  pub begin_msg : WorkDoneProgressBegin

pub record OngoingProgress (Token : Type 0) (b : Bound) (c : Cancel) : Type 0 where
  pub token : Token

-- `WorkDoneProgressReport::default()`
abbrev default_report : WorkDoneProgressReport
default_report = record { cancellable = none; message = none; percentage = none }

module _ {Token : Type 0} where
  unfoldable pub new : Token → String → Progress Token unbounded not_cancellable
  new token title = record {
    token = token;
    begin_msg = record {
      title = title;
      cancellable = some false;
      message = none;
      percentage = none;
    };
  }

  unfoldable pub with_percentage :
      {c : Cancel} → ℕ → Progress Token unbounded c → Progress Token bounded c
  with_percentage start_percentage p = record {
    token = p.token;
    begin_msg = record p.begin_msg { percentage = some start_percentage };
  }

  unfoldable pub with_cancel_button :
      {b : Bound} → Progress Token b not_cancellable → Progress Token b cancellable
  with_cancel_button p = record {
    token = p.token;
    begin_msg = record p.begin_msg { cancellable = some true };
  }

  unfoldable pub with_message :
      {b : Bound} {c : Cancel} → String → Progress Token b c → Progress Token b c
  with_message message p = record p { begin_msg = record p.begin_msg { message = some message } }

  unfoldable pub into_unbounded :
      {c : Cancel} → OngoingProgress Token bounded c → OngoingProgress Token unbounded c
  into_unbounded o = record { token = o.token }

-- The future that sends a notification, if it is not suppressed, and the client.
abbrev pub Notified : {Value : Type 0} → OneshotApi (Response Value) → Type 0
Notified {Value} api = Option (Call Value api.Sender) × Client api

module _ {Token Value : Type 0} (to_value : ProgressParams Token → Value)
    {api : OneshotApi (Response Value)} where
  -- `send_notification::<ProgressNotification>`
  abbrev notify_progress : Token → WorkDoneProgress → Client api → Notified api
  notify_progress token v =
      send_notification "$/progress" (to_value (record { token = token; value = v }))

  module _ {b : Bound} {c : Cancel} where
    unfoldable pub begin :
        Progress Token b c → Client api → OngoingProgress Token b c × Notified api
    unfolding send_notification
    begin p cl = (record { token = p.token }, notify_progress p.token (begin_value p.begin_msg) cl)

    unfoldable pub send_progress_report :
        OngoingProgress Token b c → WorkDoneProgressReport → Client api → Notified api
    unfolding send_notification
    send_progress_report o report = notify_progress o.token (report_value report)

    unfoldable pub finish_inner :
        OngoingProgress Token b c → Option String → Client api → Notified api
    unfolding send_notification
    finish_inner o message = notify_progress o.token (end_value message)

    unfoldable pub finish : OngoingProgress Token b c → Client api → Notified api
    unfolding finish_inner
    finish o = finish_inner o none

    unfoldable pub finish_with_message :
        OngoingProgress Token b c → String → Client api → Notified api
    unfolding finish_inner
    finish_with_message o message = finish_inner o (some message)

  -- The methods `report` and `report_with_message` of each kind of stream.
  unfoldable pub report_unbounded :
      OngoingProgress Token unbounded not_cancellable → String → Client api → Notified api
  unfolding send_progress_report
  report_unbounded o message =
      send_progress_report o (record default_report { message = some message })

  unfoldable pub report_cancellable :
      OngoingProgress Token unbounded cancellable → Bool → Client api → Notified api
  unfolding send_progress_report
  report_cancellable o enable_cancel_btn =
      send_progress_report o (record default_report { cancellable = some enable_cancel_btn })

  unfoldable pub report_with_message_cancellable :
      OngoingProgress Token unbounded cancellable → String → Option Bool → Client api → Notified api
  unfolding send_progress_report
  report_with_message_cancellable o message enable_cancel_btn =
      send_progress_report o
        (record default_report { cancellable = enable_cancel_btn; message = some message })

  unfoldable pub report_bounded :
      OngoingProgress Token bounded not_cancellable → ℕ → Client api → Notified api
  unfolding send_progress_report
  report_bounded o percentage =
      send_progress_report o (record default_report { percentage = some percentage })

  unfoldable pub report_with_message_bounded :
      OngoingProgress Token bounded not_cancellable → String → ℕ → Client api → Notified api
  unfolding send_progress_report
  report_with_message_bounded o message percentage =
      send_progress_report o
        (record default_report { message = some message; percentage = some percentage })

  unfoldable pub report_bounded_cancellable :
      OngoingProgress Token bounded cancellable → ℕ → Option Bool → Client api → Notified api
  unfolding send_progress_report
  report_bounded_cancellable o percentage enable_cancel_btn =
      send_progress_report o
        (record { cancellable = enable_cancel_btn; message = none; percentage = some percentage })

  unfoldable pub report_with_message_bounded_cancellable :
      OngoingProgress Token bounded cancellable
      → String
      → ℕ
      → Option Bool
      → Client api
      → Notified api
  unfolding send_progress_report
  report_with_message_bounded_cancellable o message percentage enable_cancel_btn =
      send_progress_report o (record {
        cancellable = enable_cancel_btn;
        message = some message;
        percentage = some percentage;
      })
