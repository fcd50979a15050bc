-- ===== src/Client/Socket.antt =====
-- The loopback connection to the client: src/service/client/socket.rs. The channel of requests is
-- `futures::channel::mpsc`; what a poll of it gives, and whether it is terminated, is given.
pub mod Halves
pub mod Split
mod Tests
use tower_lsp.Base.{Bool, ◌||◌, Option, none, some, Result, ok, err, if◌then◌else◌, ◌==◌}
use tower_lsp.Base.Options.{◌>>=◌}
use tower_lsp.JsonRpc.Request.{Request}
use tower_lsp.JsonRpc.Response.{Response}
use tower_lsp.Service.State.{State, exited, State_eq}
use tower_lsp.Service.Task.{Poll, ready, ExitedError, exited_error}
use tower_lsp.Client.Oneshot.{OneshotApi}
use tower_lsp.Client.Waiters.{Pending, insert_response}

-- `RequestStream::poll_next`
unfoldable pub poll_next :
    {Value : Type 0}
    → State
    → Bool
    → Poll (Unit {0}) (Option (Request Value))
    → Poll (Unit {0}) (Option (Request Value))
poll_next state is_terminated polled =
    if state == exited || is_terminated then ready none else polled

-- `ClientSocket::poll_ready`
unfoldable pub poll_socket : State → Bool → Result (Unit {0}) ExitedError
poll_socket state is_terminated =
    if state == exited || is_terminated then err exited_error else ok tt

-- `ResponseSink::poll_ready`, which is never pending
unfoldable pub poll_sink : State → Result (Unit {0}) ExitedError
poll_sink state = if state == exited then err exited_error else ok tt

-- `ResponseSink::start_send`; `none` is a panic.
unfoldable pub start_send :
    {Value : Type 0} {api : OneshotApi (Response Value)}
    → Response Value
    → Pending api
    → Option (Pending api × Result (Unit {0}) ExitedError)
start_send item p = do p' ← insert_response item p; some (p', ok tt)
