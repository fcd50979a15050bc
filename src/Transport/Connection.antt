-- ===== src/Transport/Connection.antt =====
-- `Server::serve`: src/transport.rs. The three futures that it joins read the input, run the tasks of
-- the service, and write the output; their steps come in any order.
use tower_lsp.Base.{
  ℕ, zero, suc, ◌+◌, Bool, true, false, not, ◌&&◌, List, [], ◌∷◌, ◌++◌, Option, none, some, Result,
  ok, err, get_elem?, if◌then◌else◌, ltb,
}
use tower_lsp.JsonRpc.RequestId.{null}
use tower_lsp.JsonRpc.Json.{Json}
use tower_lsp.JsonRpc.Request.{Request}
use tower_lsp.JsonRpc.Response.{Response, from_error}
use tower_lsp.JsonRpc.Message.{Message, response, request}
use tower_lsp.JsonRpc.Router.{Router}
use tower_lsp.Service.State.{State_eq}
use tower_lsp.Service.Abort.{AbortApi}
use tower_lsp.Service.World.{World}
use tower_lsp.Service.Task.{Poll, pending, ready, Outcome, Polled, ExitedError}
use tower_lsp.Service.Polling.{poll}
use tower_lsp.Service.Lsp.{BoxService, poll_ready}
use tower_lsp.Service.System.{System, Slot, called, set_slot, step}
use tower_lsp.Client.Oneshot.{OneshotApi}
use tower_lsp.Client.Waiters.{Pending}
use tower_lsp.Client.Socket.{poll_sink, start_send}
use tower_lsp.Codec.Headers.{ParseError}
use tower_lsp.Transport.Failure.{to_jsonrpc_error}

-- What the libraries behind `framed_stdin` do.
pub record Reader (J : Type 0) : Type 0 where
  -- `serde_json::Error::is_data`
  pub is_data : J → Bool
  -- whether `FramedRead` gives the end of its stream behind an error of the decoder: that of
  -- tokio-util does so, while that of async-codec-lite goes on
  pub ends_with_error : Bool

-- The future `read_input`: it reads the next message, waits with a request for the service, has left
-- by one of its `return`s, has come to the end of the input, or has panicked.
pub data Reading (Value : Type 0) : Type 0 where
  reading : Reading Value
  waiting : Request Value → Reading Value
  returned ended panicked : Reading Value

pub record Connection {Value : Type 0} (api : AbortApi) (channels : OneshotApi (Response Value))
    (B R : Type 0) : Type 0 where
  -- the service and the tasks that were sent to `server_tasks_tx`, in their order
  pub system : System api Value B R
  -- the client's half that answers are routed to
  pub waiters : Pending channels
  pub read_input : Reading Value
  -- whether `server_tasks_tx` and `responses_tx` are connected, and `client_requests` is aborted
  pub tasks_open : Bool
  pub responses_open : Bool
  pub requests_aborted : Bool
  -- the responses that were sent to `responses_tx` and its clone, the newest last
  pub output : List (Response Value)

-- What `serve` starts with.
unfoldable pub connect :
    {Value : Type 0} {api : AbortApi} {channels : OneshotApi (Response Value)} {B R : Type 0}
    → World api
    → Pending channels
    → Connection api channels B R
connect w p = record {
  system = record { world = w; slots = [] };
  waiters = p;
  read_input = reading;
  tasks_open = true;
  responses_open = true;
  requests_aborted = false;
  output = [];
}

-- What `start_send` leaves: a panic, or the waiters and its result.
unfoldable pub after_send :
    {Value : Type 0} {api : AbortApi} {channels : OneshotApi (Response Value)} {B R : Type 0}
    → Option (Pending channels × Result (Unit {0}) ExitedError)
    → Connection api channels B R
    → Connection api channels B R
after_send none k = record k { read_input = panicked }
after_send (some (p, ok _)) k = record k { waiters = p }
after_send (some (p, err e)) k = record k { waiters = p; read_input = returned }

-- One step: an item of `framed_stdin`, its end, another poll of a `read_input` that waits for the
-- service, or a poll of a task with what the backend's future in it does.
pub data Step (Value J R : Type 0) : Type 0 where
  read : Result (Message Value) (ParseError J) → Step Value J R
  end_of_input : Step Value J R
  resumed : Step Value J R
  polled : ℕ → Option R → Step Value J R

abbrev pub as_number : Bool → ℕ
as_number true = 1
as_number false = 0

module _ {T A : Type 0} where
  abbrev pub is_running : Poll T A → Bool
  is_running (pending t) = true
  is_running (ready o) = false

  -- How many of the first tasks are running.
  abbrev pub running_before : ℕ → List (Poll T A) → ℕ
  running_before zero tasks = 0
  running_before (suc i) [] = 0
  running_before (suc i) (s ∷ tasks) = as_number (is_running s) + running_before i tasks

  -- `buffer_unordered` takes tasks in their order and has `max` of them in progress at most.
  unfoldable pub is_in_progress : ℕ → ℕ → List (Poll T A) → Bool
  is_in_progress max i tasks = ltb (running_before i tasks) max

  abbrev pub are_done : List (Poll T A) → Bool
  are_done [] = true
  are_done (s ∷ tasks) = not (is_running s) && are_done tasks

-- `unwrap_or_else` and `filter_map`: the response that a task leaves, if any
unfoldable pub response_of_task :
    {T Value : Type 0} → Poll T (Outcome Value) → List (Response Value)
response_of_task (ready (ok (some r))) = r ∷ []
response_of_task _ = []

module _ (json : Json) {api : AbortApi} {channels : OneshotApi (Response json.Value)}
    {S P B R J : Type 0} (router : Router S (BoxService json.Value P B R)) (reader : Reader J)
    (max : ℕ) where
  open json use {Value}

  unfoldable pub admit :
      Poll (Unit {0}) (Result (Unit {0}) ExitedError)
      → Request Value
      → Connection api channels B R
      → Connection api channels B R
  admit (ready (err e)) req k = record k { read_input = returned }
  admit (ready (ok _)) req k = record k {
    read_input = reading;
    system = step json router (called req) k.system;
  }
  admit (pending _) req k = record k { read_input = waiting req }

  -- `client_responses.send(res)`
  unfoldable pub forward :
      Result (Unit {0}) ExitedError
      → Response Value
      → Connection api channels B R
      → Connection api channels B R
  unfolding start_send after_send
  forward (err e) res k = record k { read_input = returned }
  forward (ok _) res k = after_send (start_send res k.waiters) k

  -- What follows the loop over the input.
  unfoldable pub disconnect : Connection api channels B R → Connection api channels B R
  disconnect k = record k {
    read_input = ended;
    tasks_open = false;
    responses_open = false;
    requests_aborted = true;
  }

  -- What `framed_stdin` gives behind an error: its end, or whatever comes.
  abbrev pub read_on : Bool → Connection api channels B R → Connection api channels B R
  unfolding disconnect
  read_on true k = disconnect k
  read_on false k = k

  unfoldable pub receive :
      Result (Message Value) (ParseError J)
      → Connection api channels B R
      → Connection api channels B R
  unfolding admit forward disconnect poll_ready poll_sink to_jsonrpc_error
  receive (ok (request req)) k = admit (poll_ready k.system.world.state) req k
  receive (ok (response res)) k = forward (poll_sink k.system.world.state) res k
  receive (err e) k =
      read_on reader.ends_with_error
        (record k { output = k.output ++ from_error null (to_jsonrpc_error reader.is_data e) ∷ [] })

  unfoldable pub finish_poll :
      ℕ → Polled api Value B R → Connection api channels B R → Connection api channels B R
  unfolding set_slot response_of_task
  finish_poll i (w, p) k = record k {
    system = set_slot k.system.slots i (w, p);
    output = k.output ++ response_of_task p;
  }

  unfoldable pub poll_task :
      Option (Slot api Value B R)
      → ℕ
      → Option R
      → Connection api channels B R
      → Connection api channels B R
  unfolding finish_poll poll
  poll_task (some (pending t)) i answer k =
      if is_in_progress max i k.system.slots
      then finish_poll i (poll json api answer k.system.world t) k
      else k
  poll_task _ i answer k = k

  abbrev pub when_reading :
      Reading Value
      → Connection api channels B R
      → Connection api channels B R
      → Connection api channels B R
  when_reading reading next k = next
  when_reading _ next k = k

  unfoldable pub resume : Reading Value → Connection api channels B R → Connection api channels B R
  unfolding admit poll_ready
  resume (waiting req) k = admit (poll_ready k.system.world.state) req k
  resume _ k = k

  unfoldable pub serve_step :
      Step Value J R → Connection api channels B R → Connection api channels B R
  unfolding receive disconnect resume poll_task
  serve_step (read item) k = when_reading k.read_input (receive item k) k
  serve_step end_of_input k = when_reading k.read_input (disconnect k) k
  serve_step resumed k = resume k.read_input k
  serve_step (polled i answer) k = poll_task (get_elem? k.system.slots i) i answer k

  unfoldable pub serve :
      List (Step Value J R) → Connection api channels B R → Connection api channels B R
  serve [] k = k
  serve (e ∷ es) k = serve es (serve_step e k)
