-- ===== src/Transport/Stopped.antt =====
-- The early `return`s of `read_input`: src/transport.rs.
use tower_lsp.Base.{
  ℕ, ◌≡◌, refl, inl, inr, true, false, List, [], ◌∷◌, Option, none, some, ok, get_elem?, Bool-cases,
  arith,
}
use tower_lsp.JsonRpc.Json.{Json}
use tower_lsp.JsonRpc.Response.{Response}
use tower_lsp.JsonRpc.Router.{Router}
use tower_lsp.Service.State.{exited, State_eq}
use tower_lsp.Service.Abort.{AbortApi}
use tower_lsp.Service.Task.{pending, ready}
use tower_lsp.Service.Lsp.{BoxService, poll_ready}
use tower_lsp.Service.System.{Slot, set_slot}
use tower_lsp.Client.Oneshot.{OneshotApi}
use tower_lsp.Client.Socket.{poll_sink}
use tower_lsp.Transport.Completion.{is_served, is_output_printed, are_tasks_processed}
use tower_lsp.JsonRpc.Message.{Message, response, request}
use tower_lsp.Transport.Connection.{
  Reader, Reading, reading, waiting, returned, Connection, Step, read, end_of_input, resumed,
  polled, admit, forward, receive, resume, finish_poll, poll_task, serve_step, serve, when_reading,
  is_in_progress,
}

module _ (json : Json) {api : AbortApi} {channels : OneshotApi (Response json.Value)}
    {S P B R J : Type 0} (router : Router S (BoxService json.Value P B R)) (reader : Reader J)
    (max : ℕ) where
  open json use {Value}

  -- `read_input` has returned early, and the channels are as they were.
  abbrev IsStopped : Connection api channels B R → Type 0
  IsStopped k = (k.read_input ≡ returned) × (k.tasks_open ≡ true)

  poll_task-IsStopped :
      (s : Option (Slot api Value B R)) (i : ℕ) (answer : Option R)
      (k : Connection api channels B R)
      → IsStopped k
      → IsStopped (poll_task json router reader max s i answer k)
  unfolding poll_task finish_poll set_slot
  poll_task-IsStopped (some (pending t)) i answer k h =
      elim (Bool-cases (is_in_progress max i k.system.slots)) [
        | inl free ↦ rw (free) h
        | inr full ↦ rw (full) h
      ]
  poll_task-IsStopped (some (ready o)) i answer k h = h
  poll_task-IsStopped none i answer k h = h

  when_reading-IsStopped :
      (r : Reading Value) (next k : Connection api channels B R)
      → r ≡ returned
      → IsStopped k
      → IsStopped (when_reading json router reader max r next k)
  when_reading-IsStopped reading next k e h = absurd (cc)
  when_reading-IsStopped _ next k e h = h

  resume-IsStopped :
      (r : Reading Value) (k : Connection api channels B R)
      → r ≡ returned
      → IsStopped k
      → IsStopped (resume json router reader max r k)
  unfolding resume
  resume-IsStopped (waiting req) k e h = absurd (cc)
  resume-IsStopped _ k e h = h

  when_reading-next :
      (r : Reading Value) (next k : Connection api channels B R)
      → r ≡ reading
      → IsStopped next
      → IsStopped (when_reading json router reader max r next k)
  when_reading-next reading next k e h = h
  when_reading-next _ next k e h = absurd (cc)

  serve_step-IsStopped :
      (e : Step Value J R) (k : Connection api channels B R)
      → IsStopped k
      → IsStopped (serve_step json router reader max e k)
  unfolding serve_step resume
  serve_step-IsStopped (read item) k h = when_reading-IsStopped k.read_input _ k h.0 h
  serve_step-IsStopped end_of_input k h = when_reading-IsStopped k.read_input _ k h.0 h
  serve_step-IsStopped resumed k h = resume-IsStopped k.read_input k h.0 h
  serve_step-IsStopped (polled i answer) k h =
      poll_task-IsStopped (get_elem? k.system.slots i) i answer k h

  serve-IsStopped :
      (es : List (Step Value J R)) (k : Connection api channels B R)
      → IsStopped k
      → IsStopped (serve json router reader max es k)
  unfolding serve
  serve-IsStopped [] k h = h
  serve-IsStopped (e ∷ es) k h = serve-IsStopped es _ (serve_step-IsStopped e k h)

  open_is_served : (k : Connection api channels B R) → k.tasks_open ≡ true → is_served k ≡ false
  unfolding is_served is_output_printed are_tasks_processed
  open_is_served k up = rw (up) (ground arith)

  receive-IsStopped :
      (m : Message Value) (k : Connection api channels B R)
      → k.system.world.state ≡ exited
      → k.tasks_open ≡ true
      → IsStopped (receive json router reader max (ok m) k)
  unfolding receive admit forward poll_ready poll_sink
  receive-IsStopped (request req) k gone up = rw (gone, poll_ready) (refl, up)
  receive-IsStopped (response res) k gone up = rw (gone, poll_sink) (refl, up)

  -- A server that has exited and reads on stops reading at the next message, be it a request or
  -- an answer; then `serve` never ends, whatever happens, the end of the input included, since
  -- the channels stay open.
  pub serve-exited :
      (m : Message Value) (es : List (Step Value J R)) (k : Connection api channels B R)
      → k.read_input ≡ reading
      → k.tasks_open ≡ true
      → k.system.world.state ≡ exited
      → is_served (serve json router reader max (read (ok m) ∷ es) k) ≡ false
  unfolding serve serve_step
  serve-exited m es k r up gone =
      open_is_served _
        (serve-IsStopped es (serve_step json router reader max (read (ok m)) k)
          (when_reading-next k.read_input _ k r (receive-IsStopped m k gone up))).1
