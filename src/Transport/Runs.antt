-- ===== src/Transport/Runs.antt =====
-- The server loop and the service: src/transport.rs.
use tower_lsp.Base.{
  ℕ, ◌≡◌, refl, sym, ◌∙◌, ap, inl, inr, Bool, true, false, Bool-cases, List, [], ◌∷◌, ◌++◌, Option,
  none, some, ok, err, Result, get_elem?, ltb,
}
use tower_lsp.JsonRpc.Json.{Json}
use tower_lsp.JsonRpc.Request.{Request}
use tower_lsp.JsonRpc.Response.{Response}
use tower_lsp.JsonRpc.Message.{response, request}
use tower_lsp.JsonRpc.Router.{Router}
use tower_lsp.Service.State.{State, uninitialized, initializing, initialized, shut_down, exited}
use tower_lsp.Service.Abort.{AbortApi}
use tower_lsp.Service.Task.{pending, ready, ExitedError}
use tower_lsp.Service.Lsp.{BoxService, poll_ready}
use tower_lsp.Service.System.{System, Event, Slot, step, run, poll_slot}
use tower_lsp.Client.Oneshot.{OneshotApi}
use tower_lsp.Client.Waiters.{Pending}
use tower_lsp.Client.Socket.{poll_sink, start_send}
use tower_lsp.Transport.Trace.{
  at_reading, call_when_ready, resumed_call, poll_in_progress, step_events, events,
}
use tower_lsp.Transport.Connection.{
  Reader, Reading, reading, waiting, returned, ended, panicked, Connection, Step, read,
  end_of_input, resumed, serve, serve_step, admit, forward, receive, disconnect, read_on,
  after_send, resume, finish_poll, poll_task, when_reading, is_in_progress,
}
use tower_lsp.Transport.Connection

module _ (json : Json) {api : AbortApi} {S P B R : Type 0}
    (router : Router S (BoxService json.Value P B R)) where
  open json use {Value}

  run-append :
      (es fs : List (Event Value R)) (s : System api Value B R)
      → run json router (es ++ fs) s ≡ run json router fs (run json router es s)
  unfolding run
  run-append [] fs s = refl
  run-append (e ∷ es) fs s = run-append es fs (step json router e s)

module _ (json : Json) {api : AbortApi} {channels : OneshotApi (Response json.Value)}
    {S P B R J : Type 0} (router : Router S (BoxService json.Value P B R)) (reader : Reader J)
    (max : ℕ) where
  open json use {Value}

  module _ (k : Connection api channels B R) where
    admit-run :
        (state : State) (req : Request Value)
        → (admit json router reader max (poll_ready state) req k).system
          ≡ run json router (call_when_ready state req) k.system
    unfolding admit poll_ready run
    admit-run uninitialized req = refl
    admit-run initializing req = refl
    admit-run initialized req = refl
    admit-run shut_down req = refl
    admit-run exited req = refl

    after_send-system :
        (sent : Option (Pending channels × Result (Unit {0}) ExitedError))
        → (after_send sent k).system ≡ k.system
    unfolding after_send
    after_send-system none = refl
    after_send-system (some (p, ok x)) = refl
    after_send-system (some (p, err e)) = refl

    forward-system :
        (r : Result (Unit {0}) ExitedError) (res : Response Value)
        → (forward json router reader max r res k).system ≡ k.system
    unfolding forward
    forward-system (err e) res = refl
    forward-system (ok x) res = after_send-system (start_send res k.waiters)

    when_reading-run :
        (r : Reading Value) (next : Connection api channels B R) (es : List (Event Value R))
        → next.system ≡ run json router es k.system
        → (when_reading json router reader max r next k).system
          ≡ run json router (at_reading r es) k.system
    unfolding run
    when_reading-run reading next es e = e
    when_reading-run (waiting req) next es e = refl
    when_reading-run returned next es e = refl
    when_reading-run ended next es e = refl
    when_reading-run panicked next es e = refl

    when_reading-system :
        (r : Reading Value) (next : Connection api channels B R)
        → next.system ≡ k.system
        → (when_reading json router reader max r next k).system ≡ k.system
    when_reading-system reading next e = e
    when_reading-system _ next e = refl

    resume-run :
        (r : Reading Value)
        → (resume json router reader max r k).system
          ≡ run json router (resumed_call r k.system.world.state) k.system
    unfolding resume run
    resume-run (waiting req) = admit-run k.system.world.state req
    resume-run reading = refl
    resume-run returned = refl
    resume-run ended = refl
    resume-run panicked = refl

    poll_task-run :
        (s : Option (Slot api Value B R)) (i : ℕ) (answer : Option R)
        → get_elem? k.system.slots i ≡ s
        → (poll_task json router reader max s i answer k).system
          ≡ run json router (poll_in_progress max i answer k.system.slots s) k.system
    unfolding poll_task finish_poll run step poll_slot is_in_progress
    poll_task-run (some (pending t)) i answer e =
        elim (Bool-cases (ltb (Connection.running_before i k.system.slots) max)) [
          | inl free ↦ rw (free) (sym (ap (λ o. poll_slot json router o i answer k.system) e))
          | inr full ↦ rw (full) refl
        ]
    poll_task-run (some (ready o)) i answer e = refl
    poll_task-run none i answer e = refl

  read_on-system :
      (ends : Bool) (k : Connection api channels B R)
      → (read_on json router reader max ends k).system ≡ k.system
  unfolding disconnect
  read_on-system true k = refl
  read_on-system false k = refl

  serve_step-run :
      (e : Step Value J R) (k : Connection api channels B R)
      → (serve_step json router reader max e k).system
        ≡ run json router (step_events json router reader max e k) k.system
  unfolding serve_step receive disconnect run
  serve_step-run (read (ok (request req))) k =
      when_reading-run k k.read_input _ _ (admit-run k k.system.world.state req)
  serve_step-run (read (ok (response res))) k =
      when_reading-system k k.read_input _ (forward-system k (poll_sink k.system.world.state) res)
  serve_step-run (read (err e)) k =
      when_reading-system k k.read_input _ (read_on-system reader.ends_with_error _)
  serve_step-run end_of_input k = when_reading-system k k.read_input _ refl
  serve_step-run resumed k = resume-run k k.read_input
  serve_step-run (Connection.polled i answer) k =
      poll_task-run k (get_elem? k.system.slots i) i answer refl

  -- Whatever the steps of the server loop, it does to the service just this, in this order: a
  -- call for each request that is read while the loop reads, or that waits and is taken up again,
  -- if the service is not initializing and has not exited; and a poll for each task that is
  -- polled while it is running and has fewer than the allowed number of running tasks before it.
  -- The state of the service is that after this run of calls and polls.
  pub serve-run :
      (es : List (Step Value J R)) (k : Connection api channels B R)
      → (serve json router reader max es k).system
        ≡ run json router (events json router reader max es k) k.system
  unfolding serve run
  serve-run [] k = refl
  serve-run (e ∷ es) k =
      serve-run es (serve_step json router reader max e k)
      ∙ ap
          (run json router
            (events json router reader max es (serve_step json router reader max e k)))
          (serve_step-run e k)
      ∙ sym (run-append json router (step_events json router reader max e k) _ k.system)
