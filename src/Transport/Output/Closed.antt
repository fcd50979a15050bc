-- ===== src/Transport/Output/Closed.antt =====
-- What the other futures do to the channel of responses while the output is printed:
-- src/transport.rs.
use tower_lsp.Base.{
  ℕ, zero, suc, ◌≡◌, refl, sym, ap, ◌∙◌, inl, inr, ◌⊎◌, Bool, true, false, List, [], ◌∷◌, ◌++◌,
  Option, none, some, ok, err, Result, get_elem?, Bool-cases, arith,
}
use mathlib.Core.List.{append_assoc, append-nil}
use tower_lsp.JsonRpc.Json.{Json}
use tower_lsp.JsonRpc.Request.{Request}
use tower_lsp.JsonRpc.Response.{Response}
use tower_lsp.JsonRpc.Message.{Message, response, request}
use tower_lsp.JsonRpc.Router.{Router}
use tower_lsp.Service.Abort.{AbortApi}
use tower_lsp.Service.Task.{Poll, pending, ready, ExitedError}
use tower_lsp.Service.Lsp.{BoxService, poll_ready}
use tower_lsp.Service.System.{System, Slot}
use tower_lsp.Client.Oneshot.{OneshotApi}
use tower_lsp.Client.Waiters.{Pending}
use tower_lsp.Client.Socket.{poll_sink, start_send}
use tower_lsp.Codec.Headers.{ParseError}
use tower_lsp.Transport.Invariants.{IsWaitingFor, step-IsKnown, IsLasting, serve_step-Holds}
use tower_lsp.Transport.Completion.{are_tasks_processed}
use tower_lsp.Transport.Connection.{
  Reader, Reading, reading, waiting, returned, ended, panicked, Connection, Step, read,
  end_of_input, resumed, polled, admit, forward, receive, read_on, disconnect, after_send, resume,
  finish_poll, poll_task, serve_step, when_reading, is_in_progress, are_done,
}
use tower_lsp.Transport.Output.{is_closed}

abbrev pub HasGrown : {A : Type 0} → List A → List A → Type 0
HasGrown {A} xs ys = (more : List A) × (ys ≡ xs ++ more)

HasGrown-append : {A : Type 0} (xs ys zs : List A) → HasGrown xs ys → HasGrown xs (ys ++ zs)
HasGrown-append xs ys zs (more, e) = (more ++ zs, ap (λ l. l ++ zs) e ∙ append_assoc xs more zs)

waits : {Value : Type 0} (r : Reading Value) → IsWaitingFor (λ req. Unit) r
waits (waiting req) = tt
waits _ = tt

module _ {Value : Type 0} {api : AbortApi} {channels : OneshotApi (Response Value)}
    {B R : Type 0} where
  -- `read_input` disconnects the channel of responses only where it ends.
  abbrev pub IsShut : Connection api channels B R → Type 0
  IsShut k = (k.responses_open ≡ true) ⊎ (k.read_input ≡ ended)

module _ (json : Json) {api : AbortApi} {S P B R : Type 0}
    (router : Router S (BoxService json.Value P B R)) (max : ℕ) where
  open json use {Value}

  HasGrown-IsLasting :
      (xs : List (Response Value))
      → IsLasting json router max (λ req. Unit) (λ (s : System api Value B R) ys. HasGrown xs ys)
  HasGrown-IsLasting xs = record {
    admitted = λ s o req h q. h;
    finished = λ s o i answer t h at free. HasGrown-append xs o _ h;
    failed = λ s o r h n. HasGrown-append xs o (r ∷ []) h;
  }

module _ (json : Json) {api : AbortApi} {channels : OneshotApi (Response json.Value)}
    {S P B R J : Type 0} (router : Router S (BoxService json.Value P B R)) (reader : Reader J)
    (max : ℕ) where
  open json use {Value}

  -- A step adds responses behind those that were sent.
  pub output-HasGrown :
      (e : Step Value J R) (k : Connection api channels B R)
      → HasGrown k.output (serve_step json router reader max e k).output
  output-HasGrown e k =
      (serve_step-Holds json router reader max (λ req. Unit) (λ s ys. HasGrown k.output ys)
        (HasGrown-IsLasting json router max k.output) k
        (([], sym (append-nil k.output)), waits k.read_input) e (step-IsKnown (e ∷ [])).0).0

  read_on-IsShut :
      (ends : Bool) (k : Connection api channels B R)
      → k.responses_open ≡ true
      → IsShut (read_on json router reader max ends k)
  unfolding disconnect
  read_on-IsShut true k up = inr refl
  read_on-IsShut false k up = inl up

  module _ (k : Connection api channels B R) where
    poll_task-kept :
        (s : Option (Slot api Value B R)) (i : ℕ) (answer : Option R)
        → let k' = poll_task json router reader max s i answer k in
          (k'.responses_open ≡ k.responses_open) × (k'.read_input ≡ k.read_input)
    unfolding poll_task finish_poll
    poll_task-kept (some (pending t)) i answer =
        elim (Bool-cases (is_in_progress max i k.system.slots)) [
          | inl free ↦ rw free (refl, refl)
          | inr full ↦ rw full (refl, refl)
        ]
    poll_task-kept (some (ready o)) i answer = (refl, refl)
    poll_task-kept none i answer = (refl, refl)

    module _ (up : k.responses_open ≡ true) where
      admit_up :
          (r : Poll (Unit {0}) (Result (Unit {0}) ExitedError)) (req : Request Value)
          → (admit json router reader max r req k).responses_open ≡ true
      unfolding admit
      admit_up (ready (err e)) req = up
      admit_up (ready (ok x)) req = up
      admit_up (pending x) req = up

      after_send_up :
          (sent : Option (Pending channels × Result (Unit {0}) ExitedError))
          → (after_send sent k).responses_open ≡ true
      unfolding after_send
      after_send_up none = up
      after_send_up (some (p, ok x)) = up
      after_send_up (some (p, err e)) = up

      forward_up :
          (r : Result (Unit {0}) ExitedError) (res : Response Value)
          → (forward json router reader max r res k).responses_open ≡ true
      unfolding forward
      forward_up (err e) res = up
      forward_up (ok x) res = after_send_up (start_send res k.waiters)

      receive-IsShut :
          (item : Result (Message Value) (ParseError J))
          → IsShut (receive json router reader max item k)
      unfolding receive
      receive-IsShut (ok (request req)) = inl (admit_up (poll_ready k.system.world.state) req)
      receive-IsShut (ok (response res)) = inl (forward_up (poll_sink k.system.world.state) res)
      receive-IsShut (err e) = read_on-IsShut reader.ends_with_error _ up

      resume_up : (r : Reading Value) → (resume json router reader max r k).responses_open ≡ true
      unfolding resume
      resume_up (waiting req) = admit_up (poll_ready k.system.world.state) req
      resume_up reading = up
      resume_up returned = up
      resume_up ended = up
      resume_up panicked = up

    read-IsShut :
        (r : Reading Value) (next : Connection api channels B R)
        → r ≡ k.read_input
        → IsShut k
        → ((k.responses_open ≡ true) → IsShut next)
        → IsShut (when_reading json router reader max r next k)
    read-IsShut reading next e (inl up) f = f up
    read-IsShut reading next e (inr over) f = absurd (cc)
    read-IsShut (waiting req) next e h f = h
    read-IsShut returned next e h f = h
    read-IsShut ended next e h f = h
    read-IsShut panicked next e h f = h

    resume-IsShut :
        (r : Reading Value)
        → r ≡ k.read_input
        → IsShut k
        → IsShut (resume json router reader max r k)
    unfolding resume
    resume-IsShut (waiting req) e (inl up) = inl (admit_up up (poll_ready k.system.world.state) req)
    resume-IsShut (waiting req) e (inr over) = absurd (cc)
    resume-IsShut reading e h = h
    resume-IsShut returned e h = h
    resume-IsShut ended e h = h
    resume-IsShut panicked e h = h

    poll_task-IsShut :
        (s : Option (Slot api Value B R)) (i : ℕ) (answer : Option R)
        → IsShut k
        → IsShut (poll_task json router reader max s i answer k)
    poll_task-IsShut s i answer (inl up) = inl ((poll_task-kept s i answer).0 ∙ up)
    poll_task-IsShut s i answer (inr over) = inr ((poll_task-kept s i answer).1 ∙ over)

    pub serve_step-IsShut :
        (e : Step Value J R) → IsShut k → IsShut (serve_step json router reader max e k)
    unfolding serve_step disconnect
    serve_step-IsShut (read item) h =
        read-IsShut k.read_input _ refl h (λ up. receive-IsShut up item)
    serve_step-IsShut end_of_input h = read-IsShut k.read_input _ refl h (λ up. inr refl)
    serve_step-IsShut resumed h = resume-IsShut k.read_input refl h
    serve_step-IsShut (polled i answer) h = poll_task-IsShut (get_elem? k.system.slots i) i answer h

  -- A task that has been done is not polled again.
  poll_done :
      (slots : List (Slot api Value B R)) (j i : ℕ) (answer : Option R)
      (k : Connection api channels B R)
      → are_done slots ≡ true
      → poll_task json router reader max (get_elem? slots j) i answer k ≡ k
  unfolding poll_task
  poll_done [] j i answer k h = refl
  poll_done (pending t ∷ slots) j i answer k h = absurd (cc)
  poll_done (ready o ∷ slots) zero i answer k h = refl
  poll_done (ready o ∷ slots) (suc j) i answer k h = poll_done slots j i answer k h

  -- Once all senders have disconnected, nothing is left to do.
  pub serve_step-is_closed :
      (e : Step Value J R) (k : Connection api channels B R)
      → IsShut k
      → is_closed k ≡ true
      → serve_step json router reader max e k ≡ k
  unfolding serve_step is_closed are_tasks_processed resume
  serve_step-is_closed e k (inl up) h = absurd (ground arith)
  serve_step-is_closed (read item) k (inr over) h = rw over refl
  serve_step-is_closed end_of_input k (inr over) h = rw over refl
  serve_step-is_closed resumed k (inr over) h = rw over refl
  serve_step-is_closed (polled i answer) k (inr over) h =
      poll_done k.system.slots i i answer k (ground arith)
