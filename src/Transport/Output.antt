-- ===== src/Transport/Output.antt =====
-- `print_output` of `Server::serve`, beside the other futures that are joined: src/transport.rs.
pub mod Closed
pub mod Positions
pub mod Printed
pub mod Kept
pub mod Over
pub mod Drained
pub mod Received
pub mod Failed
mod Tests
use tower_lsp.Base.{
  ℕ, suc, ◌+◌, Bool, true, false, not, ◌&&◌, List, [], ◌∷◌, ◌++◌, Option, none, some, Result, ok,
  err, length, get_elem?, if◌then◌else◌, nat_eq,
}
use tower_lsp.JsonRpc.Json.{Json}
use tower_lsp.JsonRpc.Request.{Request}
use tower_lsp.JsonRpc.Response.{Response}
use tower_lsp.JsonRpc.Message.{Message, response, request}
use tower_lsp.JsonRpc.Router.{Router}
use tower_lsp.Service.Abort.{AbortApi}
use tower_lsp.Service.Task.{Poll, pending, ready}
use tower_lsp.Service.Lsp.{BoxService}
use tower_lsp.Client.Oneshot.{OneshotApi}
use tower_lsp.Client.Socket.{poll_next}
use tower_lsp.Codec.Headers.{ParseError}
use tower_lsp.Codec.Wire.{Wire}
use tower_lsp.Codec.Encode.{encode}
use tower_lsp.Transport.Connection.{Reader, Connection, Step, serve_step}
use tower_lsp.Transport.Completion.{are_tasks_processed}

-- It forwards messages, has ended with both of its streams, has ended with an error, or another
-- future has panicked.
pub data Printer : Type 0 where
  forwarding ended failed panicked : Printer

pub record Output {Value : Type 0} (api : AbortApi) (channels : OneshotApi (Response Value))
    (B R : Type 0) : Type 0 where
  pub connection : Connection api channels B R
  pub print_output : Printer
  -- how many of the responses that `responses_rx` gives have been printed
  pub taken : ℕ
  -- whether `responses_rx` and `client_requests` have given their end
  pub responses_ended : Bool
  pub requests_ended : Bool
  -- the messages that were sent to `framed_stdout`, and the bytes that it made of them
  pub printed : List (Message Value)
  pub written : List ℕ

unfoldable pub print_nothing :
    {Value : Type 0} {api : AbortApi} {channels : OneshotApi (Response Value)} {B R : Type 0}
    → Connection api channels B R
    → Output api channels B R
print_nothing k = record {
  connection = k;
  print_output = forwarding;
  taken = 0;
  responses_ended = false;
  requests_ended = false;
  printed = [];
  written = [];
}

-- A step of one of the other futures; a poll of `responses_rx`; a poll of `client_requests`, with
-- what its channel gives; or an error of the stream behind `framed_stdout`.
pub data Event (Value J R : Type 0) : Type 0 where
  served : Step Value J R → Event Value J R
  print_response : Event Value J R
  print_request : Bool → Poll (Unit {0}) (Option (Request Value)) → Event Value J R
  output_failed : Event Value J R

module _ {Value : Type 0} {api : AbortApi} {channels : OneshotApi (Response Value)}
    {B R : Type 0} where
  abbrev pub when_forwarding :
      Printer → Output api channels B R → Output api channels B R → Output api channels B R
  when_forwarding forwarding next o = next
  when_forwarding _ next o = o

  -- `forward` ends with its stream, and `select` ends with both of its streams.
  unfoldable pub end_forward : Output api channels B R → Output api channels B R
  end_forward o =
      if o.responses_ended && o.requests_ended then record o { print_output = ended } else o

  -- The second state is the one behind a message that cannot be encoded.
  abbrev encoded :
      {J : Type 0}
      → Result (List ℕ) (ParseError J)
      → Message Value
      → Output api channels B R
      → Output api channels B R
      → Output api channels B R
  encoded (ok dst) m next o = record next { written = dst; printed = o.printed ++ m ∷ [] }
  encoded (err e) m next o = record o { print_output = failed }

  -- Whether all senders to `responses_rx` have disconnected.
  unfoldable pub is_closed : Connection api channels B R → Bool
  unfolding are_tasks_processed
  is_closed k = not k.responses_open && are_tasks_processed k

  abbrev take_response :
      {J : Type 0}
      → Wire (Message Value) J
      → Option (Response Value)
      → Output api channels B R
      → Output api channels B R
  unfolding encode is_closed end_forward
  take_response wire (some r) o =
      encoded (encode wire (response r) o.written) (response r) (record o { taken = suc o.taken }) o
  take_response wire none o =
      if is_closed o.connection then end_forward (record o { responses_ended = true }) else o

  abbrev take_request :
      {J : Type 0}
      → Wire (Message Value) J
      → Poll (Unit {0}) (Option (Request Value))
      → Output api channels B R
      → Output api channels B R
  unfolding encode end_forward
  take_request wire (pending _) o = o
  take_request wire (ready none) o = end_forward (record o { requests_ended = true })
  take_request wire (ready (some r)) o = encoded (encode wire (request r) o.written) (request r) o o

  unfoldable pub poll_responses :
      {J : Type 0} → Wire (Message Value) J → Output api channels B R → Output api channels B R
  unfolding encode is_closed end_forward
  poll_responses wire o =
      if o.responses_ended then o else take_response wire (get_elem? o.connection.output o.taken) o

  -- `Abortable::poll_next` asks first whether the stream is aborted.
  unfoldable pub poll_requests :
      {J : Type 0}
      → Wire (Message Value) J
      → Bool
      → Poll (Unit {0}) (Option (Request Value))
      → Output api channels B R
      → Output api channels B R
  unfolding poll_next encode end_forward
  poll_requests wire is_terminated polled o =
      if o.requests_ended
      then o
      else take_request wire
          (if o.connection.requests_aborted
            then ready none
            else poll_next o.connection.system.world.state is_terminated polled)
          o

  -- Once `print_output` has ended with an error, `responses_rx` is dropped: `send` on `responses_tx`
  -- fails, which `unwrap` and `unreachable!` make a panic.
  abbrev after_step :
      Printer → Connection api channels B R → Output api channels B R → Output api channels B R
  after_step failed k o =
      if nat_eq (length k.output) (length o.connection.output)
      then record o { connection = k }
      else record o { print_output = panicked }
  after_step panicked k o = o
  after_step _ k o = record o { connection = k }

module _ (json : Json) {api : AbortApi} {channels : OneshotApi (Response json.Value)}
    {S P B R J : Type 0} (router : Router S (BoxService json.Value P B R)) (reader : Reader J)
    (max : ℕ) (wire : Wire (Message json.Value) J) where
  open json use {Value}

  unfoldable pub output_step : Event Value J R → Output api channels B R → Output api channels B R
  unfolding serve_step poll_responses poll_requests
  output_step (served e) o =
      after_step o.print_output (serve_step json router reader max e o.connection) o
  output_step print_response o = when_forwarding o.print_output (poll_responses wire o) o
  output_step (print_request is_terminated polled) o =
      when_forwarding o.print_output (poll_requests wire is_terminated polled o) o
  output_step output_failed o =
      when_forwarding o.print_output (record o { print_output = failed }) o

  unfoldable pub serve_output :
      List (Event Value J R) → Output api channels B R → Output api channels B R
  unfolding output_step
  serve_output [] o = o
  serve_output (e ∷ es) o = serve_output es (output_step e o)
