-- ===== src/Client/Progress/Sessions.antt =====
-- Whole streams of `$/progress` notifications: src/service/client/progress.rs.
use tower_lsp.Base.{
  ℕ, String, Bool, ◌≡◌, refl, sym, subst, ap, Option, none, some, List, [], ◌∷◌, map, All,
  if◌then◌else◌,
}
use tower_lsp.JsonRpc.Request.{from_notification}
use tower_lsp.JsonRpc.Response.{Response}
use tower_lsp.Client.Oneshot.{OneshotApi}
use tower_lsp.Client.Requests.{Client, sending, send_notification, can_send, call, register}
use tower_lsp.Client.Progress.{
  Bound, bounded, unbounded, Cancel, cancellable, not_cancellable, WorkDoneProgressReport,
  WorkDoneProgress, begin_value, report_value, end_value, ProgressParams, Progress, OngoingProgress,
  Notified, into_unbounded, begin, finish, finish_with_message, report_unbounded,
  report_cancellable, report_with_message_cancellable, report_bounded, report_with_message_bounded,
  report_bounded_cancellable, report_with_message_bounded_cancellable, send_progress_report,
  finish_inner,
}
use tower_lsp.Client.Progress.Built.{IsBuilt, Announces, built-Announces}

-- The calls on a stream of each kind, up to its end.
pub data Session : Bound → Cancel → Type 0 where
  ended : (b : Bound) (c : Cancel) → Session b c
  ended_with : (b : Bound) (c : Cancel) → String → Session b c
  unbound : (c : Cancel) → Session unbounded c → Session bounded c
  message : String → Session unbounded not_cancellable → Session unbounded not_cancellable
  button : Bool → Session unbounded cancellable → Session unbounded cancellable
  message_button :
      String → Option Bool → Session unbounded cancellable → Session unbounded cancellable
  percentage : ℕ → Session bounded not_cancellable → Session bounded not_cancellable
  message_percentage :
      String → ℕ → Session bounded not_cancellable → Session bounded not_cancellable
  percentage_button : ℕ → Option Bool → Session bounded cancellable → Session bounded cancellable
  message_percentage_button :
      String → ℕ → Option Bool → Session bounded cancellable → Session bounded cancellable

abbrev bound_of : Option ℕ → Bound
bound_of none = unbounded
bound_of (some n) = bounded

-- The rest of a stream: reports, and the end, which comes once. Where the stream is unbounded no
-- report has a percentage; where it is bounded, the reports up to some place have one.
abbrev pub Reports : Bound → List WorkDoneProgress → Type 0
Reports b [] = ⊥
Reports b (begin_value m ∷ vs) = ⊥
Reports b (end_value m ∷ []) = Unit
Reports b (end_value m ∷ _ ∷ _) = ⊥
Reports bounded (report_value r ∷ vs) = Reports (bound_of r.percentage) vs
Reports unbounded (report_value r ∷ vs) = (r.percentage ≡ none) × Reports unbounded vs

-- Only a stream that may be cancelled says something of the button.
abbrev pub HasButton : Cancel → WorkDoneProgress → Type 0
HasButton not_cancellable (report_value r) = r.cancellable ≡ none
HasButton _ _ = Unit

bounded-Reports : (vs : List WorkDoneProgress) → Reports unbounded vs → Reports bounded vs
bounded-Reports [] h = h
bounded-Reports (begin_value m ∷ vs) h = h
bounded-Reports (end_value m ∷ []) h = h
bounded-Reports (end_value m ∷ v ∷ vs) h = h
bounded-Reports (report_value r ∷ vs) (e, h) = rw (e) h

module _ {Token Value : Type 0} (to_value : ProgressParams Token → Value)
    (api : OneshotApi (Response Value)) where
  -- The calls of a session, each of which takes the client of its time.
  unfoldable pub calls :
      {b : Bound} {c : Cancel}
      → OngoingProgress Token b c
      → Session b c
      → List (Client api → Notified api)
  calls o (ended b c) = finish to_value o ∷ []
  calls o (ended_with b c m) = finish_with_message to_value o m ∷ []
  calls o (unbound c s) = calls (into_unbounded o) s
  calls o (message m s) = report_unbounded to_value o m ∷ calls o s
  calls o (button e s) = report_cancellable to_value o e ∷ calls o s
  calls o (message_button m e s) = report_with_message_cancellable to_value o m e ∷ calls o s
  calls o (percentage n s) = report_bounded to_value o n ∷ calls o s
  calls o (message_percentage m n s) = report_with_message_bounded to_value o m n ∷ calls o s
  calls o (percentage_button n e s) = report_bounded_cancellable to_value o n e ∷ calls o s
  calls o (message_percentage_button m n e s) =
      report_with_message_bounded_cancellable to_value o m n e ∷ calls o s

  -- A value of the stream `token` is sent where the server is initialized, and is suppressed
  -- elsewhere; no waiter is registered for it, and the client stays as it is.
  abbrev pub sends : Token → WorkDoneProgress → Client api → Notified api
  sends token v cl =
      if can_send cl.state
      then (
        some (
            sending
              (from_notification "$/progress" (to_value (record { token = token; value = v })))
              none),
        cl,
      )
      else (none, cl)

  -- The values of a stream of some kind.
  abbrev pub IsStream : Bound → Cancel → Token → List (Client api → Notified api) → Type 0
  IsStream b c token ks =
      (vs : List WorkDoneProgress) × Reports b vs
      × All (HasButton c) vs
      × (ks ≡ map (sends token) vs)

  module _ (c : Cancel) (token : Token) (r : WorkDoneProgressReport)
      (h : HasButton c (report_value r)) (ks : List (Client api → Notified api)) where
    unbounded_report-IsStream :
        r.percentage ≡ none
        → IsStream unbounded c token ks
        → IsStream unbounded c token (sends token (report_value r) ∷ ks)
    unbounded_report-IsStream e (vs, rs, bs, es) =
        (report_value r ∷ vs, (e, rs), (h, bs), ap (◌∷◌ (sends token (report_value r))) es)

    bounded_report-IsStream :
        (n : ℕ)
        → r.percentage ≡ some n
        → IsStream bounded c token ks
        → IsStream bounded c token (sends token (report_value r) ∷ ks)
    bounded_report-IsStream n e (vs, rs, bs, es) =
        let shown = subst (λ q. Reports (bound_of q) vs) (sym e) rs in
        (report_value r ∷ vs, shown, (h, bs), ap (◌∷◌ (sends token (report_value r))) es)

  into_unbounded-IsStream :
      (c : Cancel) (token : Token) (ks : List (Client api → Notified api))
      → IsStream unbounded c token ks
      → IsStream bounded c token ks
  into_unbounded-IsStream c token ks (vs, rs, bs, es) = (vs, bounded-Reports vs rs, bs, es)

  pub calls-IsStream :
      (b : Bound) (c : Cancel) (o : OngoingProgress Token b c) (s : Session b c)
      → IsStream b c o.token (calls o s)
  unfolding calls finish finish_with_message finish_inner send_notification call register
      from_notification into_unbounded report_unbounded report_cancellable
      report_with_message_cancellable report_bounded report_with_message_bounded
      report_bounded_cancellable report_with_message_bounded_cancellable send_progress_report
  calls-IsStream _ _ o (ended b cancellable) = (end_value none ∷ [], tt, (tt, tt), refl)
  calls-IsStream _ _ o (ended b not_cancellable) = (end_value none ∷ [], tt, (tt, tt), refl)
  calls-IsStream _ _ o (ended_with b cancellable m) = (end_value (some m) ∷ [], tt, (tt, tt), refl)
  calls-IsStream _ _ o (ended_with b not_cancellable m) =
      (end_value (some m) ∷ [], tt, (tt, tt), refl)
  calls-IsStream _ _ o (unbound c s) =
      into_unbounded-IsStream c o.token _ (calls-IsStream unbounded c (into_unbounded o) s)
  calls-IsStream _ _ o (message m s) =
      unbounded_report-IsStream not_cancellable o.token
        (record { cancellable = none; message = some m; percentage = none }) refl _ refl
        (calls-IsStream _ _ o s)
  calls-IsStream _ _ o (button e s) =
      unbounded_report-IsStream cancellable o.token
        (record { cancellable = some e; message = none; percentage = none }) tt _ refl
        (calls-IsStream _ _ o s)
  calls-IsStream _ _ o (message_button m e s) =
      unbounded_report-IsStream cancellable o.token
        (record { cancellable = e; message = some m; percentage = none }) tt _ refl
        (calls-IsStream _ _ o s)
  calls-IsStream _ _ o (percentage n s) =
      bounded_report-IsStream not_cancellable o.token
        (record { cancellable = none; message = none; percentage = some n }) refl _ n refl
        (calls-IsStream _ _ o s)
  calls-IsStream _ _ o (message_percentage m n s) =
      bounded_report-IsStream not_cancellable o.token
        (record { cancellable = none; message = some m; percentage = some n }) refl _ n refl
        (calls-IsStream _ _ o s)
  calls-IsStream _ _ o (percentage_button n e s) =
      bounded_report-IsStream cancellable o.token
        (record { cancellable = e; message = none; percentage = some n }) tt _ n refl
        (calls-IsStream _ _ o s)
  calls-IsStream _ _ o (message_percentage_button m n e s) =
      bounded_report-IsStream cancellable o.token
        (record { cancellable = e; message = some m; percentage = some n }) tt _ n refl
        (calls-IsStream _ _ o s)

  -- A stream of `$/progress` notifications keeps to its kind. On whatever the builder makes,
  -- `begin` announces a percentage just in case the stream is bounded, and announces whether it
  -- may be cancelled; the calls on the stream then send reports and one end under the same token.
  -- An unbounded stream has no report with a percentage, a bounded one has them up to some
  -- report, and only a cancellable stream says something of the button. Each value is sent if the
  -- client's state allows it and is suppressed otherwise, and the client is not changed.
  pub begin-IsStream :
      (b : Bound) (c : Cancel) (p : Progress Token b c) (cl : Client api) (s : Session b c)
      → IsBuilt b c p
      → ((begin to_value p cl).1 ≡ sends p.token (begin_value p.begin_msg) cl)
        × Announces b c p.begin_msg
        × IsStream b c p.token (calls (begin to_value p cl).0 s)
  unfolding begin send_notification call register from_notification
  begin-IsStream b c p cl s h =
      (refl, built-Announces b c p h, calls-IsStream b c (begin to_value p cl).0 s)
