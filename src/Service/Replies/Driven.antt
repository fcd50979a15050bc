-- ===== src/Service/Replies/Driven.antt =====
-- Whole runs of a call: src/service.rs.
use tower_lsp.Base.{
  String, ◌≡◌, refl, subst, ◌≢◌, ◌⊎◌, inl, inr, List, [], ◌∷◌, Option, none, some, ok, err,
  Option-cases, Bool-cases, String_eq, ◌==◌,
}
use tower_lsp.Base.Map.{get}
use tower_lsp.JsonRpc.RequestId.{RequestId}
use tower_lsp.JsonRpc.Json.{Json}
use tower_lsp.JsonRpc.Request.{Request}
use tower_lsp.JsonRpc.Response.{Response}
use tower_lsp.JsonRpc.Router.{Router, route, method_not_found_response}
use tower_lsp.JsonRpc.Router.Calls.{Answers, error_Answers}
use tower_lsp.Service.State.{exited, State_eq}
use tower_lsp.Service.Abort.{AbortApi}
use tower_lsp.Service.World.{World}
use tower_lsp.Service.Task.{
  Task, Outcome, Poll, Polled, pending, ready, done, filtering, exited_error,
}
use tower_lsp.Service.Polling.{poll, after_call, filter_response}
use tower_lsp.Service.Layers.{call_exit}
use tower_lsp.Service.Lsp.{BoxService, exit, call, call_routed, call_service}
use tower_lsp.Service.Replies.{Fits, PollFits, poll-Fits}
use tower_lsp.Service.Replies.Calls.{IsGood, call_service-Fits}

module _ (json : Json) where
  open json use {Value}

  module _ (api : AbortApi) {B R : Type 0} where
    resume :
        (Task Value api.Handle B R → Poll (Task Value api.Handle B R) (Outcome Value))
        → Poll (Task Value api.Handle B R) (Outcome Value)
        → Poll (Task Value api.Handle B R) (Outcome Value)
    resume next (pending t) = next t
    resume next (ready o) = ready o

    -- The polls of one future, each with what the backend's future does and the world at that
    -- time, in which anything may have happened since the last poll.
    unfoldable pub drive :
        List (Option R × World api)
        → Task Value api.Handle B R
        → Poll (Task Value api.Handle B R) (Outcome Value)
    unfolding resume
    drive [] t = pending t
    drive ((answer, w) ∷ rest) t = resume (drive rest) (poll json api answer w t).1

    module _ (oid : Option RequestId) where
      abbrev pub Served : Task Value api.Handle B R → Type 0
      Served (filtering t) = Fits oid t
      Served (done o) = o ≡ err exited_error
      Served _ = ⊥

      abbrev pub ServedPoll : Poll (Task Value api.Handle B R) (Outcome Value) → Type 0
      ServedPoll (pending t) = Served t
      ServedPoll (ready (err e)) = Unit
      ServedPoll (ready (ok res)) =
          (r : Option (Response Value)) × Answers oid r × (res ≡ filter_response json r)

      after_call-Served :
          (p : Polled api Value B R) → PollFits oid p.1 → ServedPoll (after_call json api p).1
      unfolding after_call
      after_call-Served (w, pending t) f = f
      after_call-Served (w, ready (ok res)) f = (res, f, refl)
      after_call-Served (w, ready (err e)) f = tt

      pub poll-Served :
          (answer : Option R) (w : World api) (t : Task Value api.Handle B R)
          → Served t
          → ServedPoll (poll json api answer w t).1
      unfolding poll
      poll-Served answer w (filtering t) f =
          after_call-Served (poll json api answer w t) (poll-Fits json api oid answer w t f)
      poll-Served answer w (done (ok res)) e = cc
      poll-Served answer w (done (err x)) e = tt
      poll-Served answer w _ f = absurd f

      resume-Served :
          (next : Task Value api.Handle B R → Poll (Task Value api.Handle B R) (Outcome Value))
          (p : Poll (Task Value api.Handle B R) (Outcome Value))
          → ((t : Task Value api.Handle B R) → Served t → ServedPoll (next t))
          → ServedPoll p
          → ServedPoll (resume next p)
      unfolding resume
      resume-Served next (pending t) keep f = keep t f
      resume-Served next (ready o) keep f = f

      drive-Served :
          (schedule : List (Option R × World api)) (t : Task Value api.Handle B R)
          → Served t
          → ServedPoll (drive schedule t)
      unfolding drive
      drive-Served [] t f = f
      drive-Served ((answer, w) ∷ rest) t f =
          resume-Served (drive rest) _ (drive-Served rest) (poll-Served answer w t f)

pub is_exit :
    {Value P B R : Type 0} (s : Option (BoxService Value P B R)) → (s ≡ some exit) ⊎ (s ≢ some exit)
is_exit none = inr (λ e. cc)
is_exit (some exit) = inl refl
is_exit (some _) = inr (λ e. cc)

Answers-none :
    {Value : Type 0} (id : Option RequestId) (r : Option (Response Value))
    → id ≡ none
    → Answers id r
    → r ≡ none
Answers-none none none e a = refl
Answers-none none (some r) e a = absurd a
Answers-none (some i) r e a = cc

module _ (json : Json) (api : AbortApi) {S P B R : Type 0} where
  open json use {Value}

  -- Every registered handler answers by one of the instances of `IntoResponse`.
  abbrev pub IsGoodRouter : Router S (BoxService Value P B R) → Type 0
  IsGoodRouter router =
      (name : String) (s : BoxService Value P B R) → get name router.methods ≡ some s → IsGood s

  module _ (router : Router S (BoxService Value P B R)) (good : IsGoodRouter router)
      (req : Request Value) (w : World api) where
    routed-Fits :
        get req.method router.methods ≢ some exit
        → Fits req.id (call_routed (route json router req) req w).1
    unfolding route call_routed method_not_found_response
    routed-Fits other = elim (Option-cases (get req.method router.methods)) [
      | inl unknown ↦ rw (unknown, route) (error_Answers _ req.id)
      | inr (s, known) ↦
          rw (known, route)
            (call_service-Fits s req w (good req.method s known) (λ e. other (rw (← e) known)))
    ]

    pub call-Served :
        get req.method router.methods ≢ some exit
        → Served json api req.id (call json router req w).1
    unfolding call
    call-Served other = elim (Bool-cases (w.state == exited)) [
      | inl gone ↦ rw (gone, call) refl
      | inr there ↦ rw (there, call) (routed-Fits other)
    ]

    -- However the future of a call is polled, and whatever else happens in between: if it ends in
    -- a value, this is the filtered form of an answer to the request. So a request is answered
    -- under its own identifier or, if the filter drops the answer, not at all; and a notification
    -- is not answered. This holds for every method but `exit`, on every router whose handlers
    -- answer by instances of `IntoResponse`.
    pub drive-call :
        (schedule : List (Option R × World api)) (res : Option (Response Value))
        → get req.method router.methods ≢ some exit
        → drive json api schedule (call json router req w).1 ≡ ready (ok res)
        → (r : Option (Response Value)) × Answers req.id r × (res ≡ filter_response json r)
    drive-call schedule res other e =
        subst (ServedPoll json api req.id) e
          (drive-Served json api req.id schedule (call json router req w).1 (call-Served other))

    exit-Fits :
        req.id ≡ none
        → get req.method router.methods ≡ some exit
        → Fits req.id (call_routed (route json router req) req w).1
    unfolding route call_routed call_service call_exit
    exit-Fits silent known = rw (known, route, silent) tt

    notification-Served : req.id ≡ none → Served json api req.id (call json router req w).1
    unfolding call
    notification-Served silent = elim (Bool-cases (w.state == exited)) [
      | inl gone ↦ rw (gone, call) refl
      | inr there ↦
          rw (there, call)
            (elim (is_exit (get req.method router.methods)) [
              | inl known ↦ exit-Fits silent known
              | inr other ↦ routed-Fits other
            ])
    ]

    -- A notification is never answered, `exit` included: if the future of its call ends in a
    -- value, however it is polled, this is `none`, on every router whose handlers answer by
    -- instances of `IntoResponse`.
    pub drive-call_notification :
        (schedule : List (Option R × World api)) (res : Option (Response Value))
        → req.id ≡ none
        → drive json api schedule (call json router req w).1 ≡ ready (ok res)
        → res ≡ none
    unfolding filter_response
    drive-call_notification schedule res silent e =
        let (r, a, same) = subst (ServedPoll json api req.id) e (
          drive-Served json api req.id schedule (call json router req w).1
            (notification-Served silent)) in
        rw (same, Answers-none req.id r silent a)
