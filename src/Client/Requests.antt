-- ===== src/Client/Requests.antt =====
-- Requests and notifications to the client: src/service/client.rs.
pub mod Numbers
pub mod Answered
use tower_lsp.Base.{
  ℕ, ◌+◌, ◌%◌, ◌^◌, String, Bool, true, false, Option, none, some, Result, ok, err, map_err, ◌>>=◌,
  if◌then◌else◌,
}
use tower_lsp.Base.Int.{pos}
use tower_lsp.JsonRpc.RequestId.{RequestId, number}
use tower_lsp.JsonRpc.Error.{Error, parse_error, internal_error_object, not_initialized_error}
use tower_lsp.JsonRpc.Request.{Request, from_request, from_notification}
use tower_lsp.JsonRpc.Response.{Response, into_parts}
use tower_lsp.Service.State.{State, initialized, shut_down}
use tower_lsp.Service.Task.{Poll, pending, ready, ExitedError, exited_error, Outcome}
use tower_lsp.Client.Oneshot.{OneshotApi}
use tower_lsp.Client.Waiters
use tower_lsp.Client.Waiters.{Pending, wait}

-- `ClientInner`; `request_id` is an `AtomicU32`. What becomes of a message in the channel is given
-- at each poll, as `Sent`; in a closed channel it is `sent_by` of this.
pub record Client {Value : Type 0} (api : OneshotApi (Response Value)) : Type 0 where
  pub request_id : ℕ
  pub pending : Pending api
  pub state : State
  -- whether the channel of requests is closed
  pub closed : Bool

-- A poll of `tx.send(req)`: the channel is full, closed, or has taken the message.
pub data Sent : Type 0 where
  blocked failed accepted : Sent

-- The future of `Client::call`.
pub data Call (Value Sender : Type 0) : Type 0 where
  sending : Request Value → Option Sender → Call Value Sender
  waiting : Sender → Call Value Sender

abbrev pub u32_mod : ℕ
u32_mod = 2 ^ 32

unfoldable pub can_send : State → Bool
can_send initialized = true
can_send shut_down = true
can_send _ = false

module _ {Value : Type 0} {api : OneshotApi (Response Value)} where
  -- The client's half; the socket has the same table and state.
  unfoldable pub new : State → api.Channels → Client api
  unfolding Waiters.new
  new state channels = record {
    request_id = 0;
    pending = Waiters.new api channels;
    state = state;
    closed = false;
  }

  unfoldable pub close : Client api → Client api
  close c = record c { closed = true }

  -- A closed channel takes no message.
  abbrev pub sent_by : Client api → Sent → Sent
  sent_by c sent = if c.closed then failed else sent

  unfoldable pub poll_ready : Client api → Sent → Poll (Unit {0}) (Result (Unit {0}) ExitedError)
  poll_ready c sent = elim (sent_by c sent) [
    | blocked ↦ pending tt
    | failed ↦ ready (err exited_error)
    | accepted ↦ ready (ok tt)
  ]

  -- `fetch_add` wraps.
  unfoldable pub next_request_id : Client api → RequestId × Client api
  next_request_id c =
      (number (pos c.request_id), record c { request_id = (c.request_id + 1) % u32_mod })

  unfoldable pub register : Option RequestId → Client api → Option api.Sender × Client api
  register none c = (none, c)
  register (some id) c = let (tx, p) = wait id c.pending in (some tx, record c { pending = p })

  -- The waiter is registered before the message is sent.
  unfoldable pub call : Request Value → Client api → Call Value api.Sender × Client api
  unfolding register
  call req c = let (waiter, c') = register req.id c in (sending req waiter, c')

  unfoldable pub read_answer :
      api.Sender → Pending api → Poll (Call Value api.Sender) (Outcome Value)
  read_answer tx p = elim (api.received p.channels tx) [
    | none ↦ pending (waiting tx)
    | some r ↦ ready (ok (some r))
  ]

  unfoldable pub after_send :
      Option api.Sender → Pending api → Poll (Call Value api.Sender) (Outcome Value)
  unfolding read_answer
  after_send none p = ready (ok none)
  after_send (some tx) p = read_answer tx p

  unfoldable pub poll_call :
      Sent → Pending api → Call Value api.Sender → Poll (Call Value api.Sender) (Outcome Value)
  unfolding after_send read_answer
  poll_call sent p (waiting tx) = read_answer tx p
  poll_call blocked p (sending req waiter) = pending (sending req waiter)
  poll_call failed p (sending req waiter) = ready (err exited_error)
  poll_call accepted p (sending req waiter) = after_send waiter p

  unfoldable pub send_request_unchecked :
      String → Value → Client api → Call Value api.Sender × Client api
  unfolding next_request_id call
  send_request_unchecked name params c =
      let (id, c') = next_request_id c in call (from_request name id params) c'

  -- The future that runs, or the error that is returned at once.
  unfoldable pub send_request :
      String → Value → Client api → Result (Call Value api.Sender) (Error Value) × Client api
  unfolding send_request_unchecked
  send_request name params c =
      let (fut, c') = send_request_unchecked name params c in
      if can_send c.state then (ok fut, c') else (err not_initialized_error, c)

  -- `none`: the message is suppressed.
  unfoldable pub send_notification :
      String → Value → Client api → Option (Call Value api.Sender) × Client api
  unfolding call
  send_notification name params c =
      let (fut, c') = call (from_notification name params) c in
      if can_send c.state then (some fut, c') else (none, c)

module _ {Value V : Type 0} (from_value : Value → Result V String) where
  read_result : Result Value (Error Value) → Result V (Error Value)
  read_result result = result >>= λ v.
      map_err (λ e. record { code = parse_error; message = e; payload = none }) (from_value v)

  -- What `send_request` makes of the end of its call.
  unfoldable pub request_result : Outcome Value → Result V (Error Value)
  unfolding read_result
  request_result (ok (some response)) = read_result (into_parts response).1
  request_result _ = err internal_error_object
