-- ===== src/Client/Progress/Tests.antt =====
-- A `$/progress` stream of each kind of call.
use tower_lsp.Base.{ℕ, String, ◌≡◌, some, none, true, Option}
use tower_lsp.Client.Progress.{
  Progress, bounded, unbounded, cancellable, not_cancellable, ProgressParams, begin_value,
  report_value, end_value, new, with_percentage, with_cancel_button, with_message, begin,
}
use tower_lsp.Client.Progress.Built.{
  Announces, new_IsBuilt, percentage_IsBuilt, cancel_IsBuilt, message_IsBuilt,
}
use tower_lsp.Client.Progress.Sessions.{
  Session, percentage_button, message_percentage_button, unbound, button, message_button,
  ended_with, calls, sends, IsStream, begin-IsStream,
}
use tower_lsp.Client.Samples.{channels_api, client}

abbrev text : Option String → String
text none = ""
text (some s) = s

-- The texts of the notifications.
abbrev shown : ProgressParams ℕ → String
shown p = elim p.value [
  | begin_value m ↦ m.title
  | report_value r ↦ text r.message
  | end_value m ↦ text m
]

abbrev indexing : Progress ℕ bounded cancellable
indexing = with_message "started" (with_cancel_button (with_percentage 0 (new 7 "Indexing")))

abbrev session : Session bounded cancellable
session = percentage_button 10 none (
    message_percentage_button "3/25 files" 12 (some true) (
      unbound cancellable (
        button true (message_button "cleaning up" none (ended_with unbounded cancellable "done")))))

begin-IsStream_example :
    ((begin shown indexing client).1
      ≡ sends shown channels_api 7 (begin_value indexing.begin_msg) client)
    × Announces bounded cancellable indexing.begin_msg
    × IsStream shown channels_api bounded cancellable 7
        (calls shown channels_api (begin shown indexing client).0 session)
unfolding new with_percentage with_cancel_button with_message
begin-IsStream_example =
    begin-IsStream shown channels_api bounded cancellable indexing client session (
      message_IsBuilt bounded cancellable _ "started" (
        cancel_IsBuilt bounded _
          (percentage_IsBuilt not_cancellable _ 0 (new_IsBuilt 7 "Indexing"))))
