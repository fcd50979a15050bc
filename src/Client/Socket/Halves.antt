-- ===== src/Client/Socket/Halves.antt =====
-- `ClientSocket` and its halves with all of their operations: src/service/client/socket.rs.
use tower_lsp.Base.{
  ℕ, Bool, ◌||◌, List, [], ◌∷◌, Option, none, some, Result, ok, if◌then◌else◌, ◌==◌,
}
use tower_lsp.Base.Options.{◌>>=◌}
use tower_lsp.JsonRpc.Request.{Request}
use tower_lsp.JsonRpc.Response.{Response}
use tower_lsp.Service.State.{State, exited, State_eq}
use tower_lsp.Service.Task.{Poll, ready, ExitedError}
use tower_lsp.Client.Oneshot.{OneshotApi}
use tower_lsp.Client.Waiters.{Pending, insert_response}
use tower_lsp.Client.Socket.{poll_next, poll_socket, poll_sink, start_send}

-- `futures::channel::mpsc::Receiver`
pub record ReceiverApi (Value : Type 0) : Type 1 where
  pub Receiver : Type 0
  pub next : Receiver → Poll (Unit {0}) (Option (Request Value)) × Receiver
  pub is_terminated : Receiver → Bool
  pub size_hint : Receiver → ℕ × Option ℕ

-- The operations of the traits `Stream`, `FusedStream` and `Sink`; and whatever happens elsewhere to
-- what is shared: the state, the waiters, and the channel through its senders.
pub data Operation {Value : Type 0} (channels : OneshotApi (Response Value))
    (receivers : ReceiverApi Value) : Type 0 where
  next_item is_ended ask_size get_ready flush close : Operation channels receivers
  send_item : Response Value → Operation channels receivers
  elsewhere : State → Pending channels → receivers.Receiver → Operation channels receivers

pub data Answer (Value : Type 0) : Type 0 where
  item : Poll (Unit {0}) (Option (Request Value)) → Answer Value
  fused : Bool → Answer Value
  hint : ℕ × Option ℕ → Answer Value
  -- `Poll::Ready`, or the result of `start_send`
  done : Result (Unit {0}) ExitedError → Answer Value
  nothing : Answer Value

module _ {Value : Type 0} (channels : OneshotApi (Response Value))
    (receivers : ReceiverApi Value) where
  pub record ClientSocket : Type 0 where
    pub rx : receivers.Receiver
    pub pending : Pending channels
    pub state : State

  pub record RequestStream : Type 0 where
    pub rx : receivers.Receiver
    pub state : State

  pub record ResponseSink : Type 0 where
    pub pending : Pending channels
    pub state : State

abbrev pub Both : {Value : Type 0} → OneshotApi (Response Value) → ReceiverApi Value → Type 0
Both channels receivers = RequestStream channels receivers × ResponseSink channels receivers

-- The receiver behind `RequestStream::poll_next`, which is asked only where it may have an item.
unfoldable pub after_next :
    {Value : Type 0} (receivers : ReceiverApi Value)
    → State
    → receivers.Receiver
    → receivers.Receiver
after_next receivers state rx =
    if state == exited || receivers.is_terminated rx then rx else (receivers.next rx).1

module _ {Value : Type 0} {channels : OneshotApi (Response Value)}
    {receivers : ReceiverApi Value} where
  unfoldable pub split : ClientSocket channels receivers → Both channels receivers
  split s = (record { rx = s.rx; state = s.state }, record { pending = s.pending; state = s.state })

  -- `ClientSocket::poll_next`, with the receiver that it leaves
  unfoldable pub next_of_socket :
      ClientSocket channels receivers
      → Poll (Unit {0}) (Option (Request Value)) × ClientSocket channels receivers
  next_of_socket s =
      if s.state == exited || receivers.is_terminated s.rx
      then (ready none, s)
      else ((receivers.next s.rx).0, record s { rx = (receivers.next s.rx).1 })

  -- `ClientSocket::start_send`
  unfoldable pub send_to_socket :
      Response Value
      → ClientSocket channels receivers
      → Option (Result (Unit {0}) ExitedError × ClientSocket channels receivers)
  unfolding insert_response
  send_to_socket r s = do p ← insert_response r s.pending; some (ok tt, record s { pending = p })

  -- `none` is a panic.
  unfoldable pub socket_step :
      Operation channels receivers
      → ClientSocket channels receivers
      → Option (Answer Value × ClientSocket channels receivers)
  unfolding next_of_socket poll_socket send_to_socket
  socket_step next_item s = let (p, s') = next_of_socket s in some (item p, s')
  socket_step is_ended s = some (fused (receivers.is_terminated s.rx), s)
  socket_step ask_size s = some (hint (receivers.size_hint s.rx), s)
  socket_step get_ready s = some (done (poll_socket s.state (receivers.is_terminated s.rx)), s)
  socket_step flush s = some (done (ok tt), s)
  socket_step close s = some (done (ok tt), s)
  socket_step (send_item r) s = do (res, s') ← send_to_socket r s; some (done res, s')
  socket_step (elsewhere state p rx) s =
      some (nothing, record { rx = rx; pending = p; state = state })

  -- The half that an operation is for answers it; they share the state.
  unfoldable pub halves_step :
      Operation channels receivers
      → Both channels receivers
      → Option (Answer Value × Both channels receivers)
  unfolding poll_next poll_sink start_send after_next
  halves_step next_item (s, k) = some (
    item (poll_next s.state (receivers.is_terminated s.rx) (receivers.next s.rx).0),
    (record s { rx = after_next receivers s.state s.rx }, k),
  )
  halves_step is_ended (s, k) = some (fused (receivers.is_terminated s.rx), (s, k))
  halves_step ask_size (s, k) = some (hint (receivers.size_hint s.rx), (s, k))
  halves_step get_ready (s, k) = some (done (poll_sink k.state), (s, k))
  halves_step flush (s, k) = some (done (ok tt), (s, k))
  halves_step close (s, k) = some (done (ok tt), (s, k))
  halves_step (send_item r) (s, k) = do
    (p, res) ← start_send r k.pending
    some (done res, (s, record k { pending = p }))
  halves_step (elsewhere state p rx) (s, k) =
      some (nothing, (record { rx = rx; state = state }, record { pending = p; state = state }))

-- The answers to operations, and what is left.
unfoldable pub run :
    {Op A S : Type 0} → (Op → S → Option (A × S)) → List Op → S → Option (List A × S)
run step [] s = some ([], s)
run step (op ∷ ops) s = do
  (a, s') ← step op s
  (answers, t) ← run step ops s'
  some (a ∷ answers, t)
