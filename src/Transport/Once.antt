-- ===== src/Transport/Once.antt =====
-- The output and the tasks: src/transport.rs.
use mathlib.Core.List.{Perm, append_assoc, perm_append_singleton, perm_append_comm}
use mathlib.Core.List.Perm
use tower_lsp.Base.{
  ℕ, zero, suc, ◌≡◌, refl, sym, subst, inl, inr, List, [], ◌∷◌, ◌++◌, Option, none, some, ok, err,
  Result, Bool, true, false, Bool-cases, get_elem?, set,
}
use tower_lsp.JsonRpc.RequestId.{null}
use tower_lsp.JsonRpc.Json.{Json}
use tower_lsp.JsonRpc.Request.{Request}
use tower_lsp.JsonRpc.Response.{Response, from_error}
use tower_lsp.JsonRpc.Message.{response, request}
use tower_lsp.JsonRpc.Router.{Router}
use tower_lsp.Service.Abort.{AbortApi}
use tower_lsp.Service.World.{World}
use tower_lsp.Service.Task.{Task, Poll, Polled, Outcome, ExitedError, pending, ready}
use tower_lsp.Service.Polling.{poll}
use tower_lsp.Service.Lsp.{BoxService, call, poll_ready}
use tower_lsp.Service.System.{System, Slot, called, add_slot, set_slot, step}
use tower_lsp.Client.Oneshot.{OneshotApi}
use tower_lsp.Client.Waiters.{Pending}
use tower_lsp.Client.Socket.{poll_sink, start_send}
use tower_lsp.Transport.Sequential.{
  outcome_of, response_of_task-outcome_of, answers, answers-append_pending,
}
use tower_lsp.Transport.Failure.{to_jsonrpc_error}
use tower_lsp.Transport.Trace.{at_reading, step_failures, failures}
use tower_lsp.Transport.Connection.{
  Reader, Reading, reading, waiting, returned, ended, panicked, Connection, Step, read,
  end_of_input, resumed, connect, serve, serve_step, admit, forward, receive, disconnect, read_on,
  after_send, resume, finish_poll, poll_task, when_reading, is_in_progress, response_of_task,
}
use tower_lsp.Transport.Connection

answers-set_perm :
    {T Value : Type 0} (xs : List (Poll T (Outcome Value))) (i : ℕ) (p : Poll T (Outcome Value))
    (t : T)
    → get_elem? xs i ≡ some (pending t)
    → Perm (answers (set xs i p)) (answers xs ++ outcome_of p)
unfolding answers
answers-set_perm [] i p t e = absurd (cc)
answers-set_perm (pending u ∷ xs) zero p t e = perm_append_comm (outcome_of p) (answers xs)
answers-set_perm (ready o ∷ xs) zero p t e = absurd (cc)
answers-set_perm {T} (x ∷ xs) (suc i) p t e =
    subst (λ l. Perm (outcome_of x ++ answers (set xs i p)) l)
      (sym (append_assoc (outcome_of x) (answers xs) (outcome_of p)))
      (Perm.append_left (outcome_of x) (answers-set_perm xs i p t e))

-- The output has the answers of the tasks that are done, and `errors`, each once.
abbrev pub IsComplete :
    {api : AbortApi} {Value B R : Type 0}
    → List (Response Value)
    → System api Value B R
    → List (Response Value)
    → Type 0
IsComplete errors s output = Perm output (errors ++ answers s.slots)

module _ (json : Json) {api : AbortApi} {S P B R : Type 0}
    (router : Router S (BoxService json.Value P B R)) where
  open json use {Value}

  admitted-IsComplete :
      (errors : List (Response Value)) (s : System api Value B R) (o : List (Response Value))
      (req : Request Value)
      → IsComplete errors s o
      → IsComplete errors (step json router (called req) s) o
  unfolding step add_slot
  admitted-IsComplete errors s o req h =
      subst (λ a. Perm o (errors ++ a))
        (sym (answers-append_pending s.slots (call json router req s.world).1)) h

  finished-IsComplete :
      (errors : List (Response Value)) (s : System api Value B R) (o : List (Response Value))
      (i : ℕ) (t : Task Value api.Handle B R) (p : Polled api Value B R)
      → IsComplete errors s o
      → get_elem? s.slots i ≡ some (pending t)
      → IsComplete errors (set_slot s.slots i p) (o ++ response_of_task p.1)
  unfolding set_slot
  finished-IsComplete errors s o i t (w, p) h e =
      subst (λ x. Perm (o ++ x) (errors ++ answers (set s.slots i p)))
        (sym (response_of_task-outcome_of p))
        (Perm.trans (Perm.append_right (outcome_of p) h) (
          subst (λ l. Perm l (errors ++ answers (set s.slots i p)))
            (sym (append_assoc errors (answers s.slots) (outcome_of p)))
            (Perm.append_left errors (Perm.symm (answers-set_perm s.slots i p t e)))))

module _ (json : Json) {api : AbortApi} {channels : OneshotApi (Response json.Value)}
    {S P B R J : Type 0} (router : Router S (BoxService json.Value P B R)) (reader : Reader J)
    (max : ℕ) where
  open json use {Value}

  abbrev Has : List (Response Value) → Connection api channels B R → Type 0
  Has errors k = IsComplete errors k.system k.output

  read_on-Has :
      (errors : List (Response Value)) (ends : Bool) (k : Connection api channels B R)
      → Has errors k
      → Has errors (read_on json router reader max ends k)
  unfolding disconnect
  read_on-Has errors true k h = h
  read_on-Has errors false k h = h

  module _ (errors : List (Response Value)) (k : Connection api channels B R)
      (h : Has errors k) where
    admit-Has :
        (r : Poll (Unit {0}) (Result (Unit {0}) ExitedError)) (req : Request Value)
        → Has errors (admit json router reader max r req k)
    unfolding admit
    admit-Has (ready (err e)) req = h
    admit-Has (ready (ok x)) req = admitted-IsComplete json router errors k.system k.output req h
    admit-Has (pending x) req = h

    after_send-Has :
        (sent : Option (Pending channels × Result (Unit {0}) ExitedError))
        → Has errors (after_send sent k)
    unfolding after_send
    after_send-Has none = h
    after_send-Has (some (p, ok x)) = h
    after_send-Has (some (p, err e)) = h

    forward-Has :
        (r : Result (Unit {0}) ExitedError) (res : Response Value)
        → Has errors (forward json router reader max r res k)
    unfolding forward
    forward-Has (err e) res = h
    forward-Has (ok x) res = after_send-Has (start_send res k.waiters)

    when_reading-Has :
        (r : Reading Value) (next : Connection api channels B R)
        → Has errors next
        → Has errors (when_reading json router reader max r next k)
    when_reading-Has reading next h' = h'
    when_reading-Has _ next h' = h

    -- An error is answered only where the loop reads.
    failed-Has :
        (r : Reading Value) (res : Response Value) (next : Connection api channels B R)
        → Has (res ∷ errors) next
        → Has (at_reading r (res ∷ []) ++ errors) (when_reading json router reader max r next k)
    failed-Has reading res next h' = h'
    failed-Has (waiting req) res next h' = h
    failed-Has returned res next h' = h
    failed-Has ended res next h' = h
    failed-Has panicked res next h' = h

    resume-Has : (r : Reading Value) → Has errors (resume json router reader max r k)
    unfolding resume
    resume-Has (waiting req) = admit-Has (poll_ready k.system.world.state) req
    resume-Has _ = h

    poll_task-Has :
        (s : Option (Slot api Value B R)) (i : ℕ) (answer : Option R)
        → get_elem? k.system.slots i ≡ s
        → Has errors (poll_task json router reader max s i answer k)
    unfolding poll_task finish_poll
    poll_task-Has (some (pending t)) i answer e =
        elim (Bool-cases (is_in_progress max i k.system.slots)) [
          | inl free ↦ rw (free) (
              finished-IsComplete json router errors k.system k.output i t
                (poll json api answer k.system.world t) h e)
          | inr full ↦ rw (full) h
        ]
    poll_task-Has (some (ready o)) i answer e = h
    poll_task-Has none i answer e = h

    serve_step-Has :
        (e : Step Value J R)
        → Has
            (step_failures json router reader max e k ++ errors)
            (serve_step json router reader max e k)
    unfolding serve_step receive disconnect
    serve_step-Has (read (ok (request req))) =
        when_reading-Has k.read_input _ (admit-Has (poll_ready k.system.world.state) req)
    serve_step-Has (read (ok (response res))) =
        when_reading-Has k.read_input _ (forward-Has (poll_sink k.system.world.state) res)
    serve_step-Has (read (err e)) = failed-Has k.read_input _ _ (
        read_on-Has (from_error null (to_jsonrpc_error reader.is_data e) ∷ errors)
          reader.ends_with_error _ (Perm.trans (perm_append_singleton _ k.output) (Perm.cons _ h)))
    serve_step-Has end_of_input = when_reading-Has k.read_input _ h
    serve_step-Has resumed = resume-Has k.read_input
    serve_step-Has (Connection.polled i answer) =
        poll_task-Has (get_elem? k.system.slots i) i answer refl

  serve-Has :
      (es : List (Step Value J R)) (errors : List (Response Value))
      (k : Connection api channels B R)
      → Has errors k
      → Has (failures json router reader max es k errors) (serve json router reader max es k)
  unfolding serve
  serve-Has [] errors k h = h
  serve-Has (e ∷ es) errors k h = serve-Has es _ _ (serve_step-Has errors k h e)

  -- At any time, with any concurrency level, input and schedule, the output is a permutation of
  -- one answer for each message that could not be decoded and was read while the loop was
  -- reading, and of one for each task that has ended in a response: no such answer is lost or
  -- written twice.
  pub connect-IsComplete :
      (es : List (Step Value J R)) (w : World api) (p : Pending channels)
      → let k = connect {B = B} w p in
        let k' = serve json router reader max es k in
        IsComplete (failures json router reader max es k []) k'.system k'.output
  unfolding connect answers
  connect-IsComplete es w p = serve-Has es [] (connect w p) (Perm.refl [])
