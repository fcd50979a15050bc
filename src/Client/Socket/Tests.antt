-- ===== src/Client/Socket/Tests.antt =====
-- The socket at concrete operations: a request comes, is taken, and the channel is closed.
use tower_lsp.Base.{
  String, ◌≡◌, refl, Bool, true, false, List, [], ◌∷◌, Option, none, some, ok, err, length,
}
use tower_lsp.JsonRpc.Request.{Request, from_notification}
use tower_lsp.Service.State.{initialized}
use tower_lsp.Service.Task.{Poll, pending, ready, exited_error}
use tower_lsp.Client.Samples.{channels_api, client}
use tower_lsp.Client.Socket.Halves.{
  ReceiverApi, Operation, next_item, get_ready, flush, elsewhere, item, done, nothing, ClientSocket,
  split, socket_step, run,
}
use tower_lsp.Client.Socket.Split.{run-split, forget, gated_step}

-- The messages in a channel, and whether it is terminated.
abbrev Queue : Type 0
Queue = List (Request String) × Bool

abbrev next_message : Queue → Poll (Unit {0}) (Option (Request String)) × Queue
next_message ([], is_closed) = (pending tt, ([], is_closed))
next_message (r ∷ rs, is_closed) = (ready (some r), (rs, is_closed))

abbrev receivers : ReceiverApi String
receivers = record {
  Receiver = Queue;
  next = next_message;
  is_terminated = λ rx. rx.1;
  size_hint = λ rx. (length rx.0, none);
}

abbrev socket : ClientSocket channels_api receivers
socket = record {
  rx = (from_notification "window/logMessage" "hello" ∷ [], false);
  pending = client.pending;
  state = initialized;
}

abbrev operations : List (Operation channels_api receivers)
operations =
    next_item
    ∷ next_item
    ∷ get_ready
    ∷ elsewhere initialized client.pending ([], true)
    ∷ get_ready
    ∷ flush
    ∷ []

run-split_example :
    forget (run socket_step operations socket) ≡ run gated_step operations (split socket)
run-split_example = run-split operations socket

socket_answers :
    run socket_step operations socket
    ≡ some (
      item (ready (some (from_notification "window/logMessage" "hello")))
          ∷ item (pending tt)
          ∷ done (ok tt)
          ∷ nothing
          ∷ done (err exited_error)
          ∷ done (ok tt)
          ∷ [],
      record { rx = ([], true); pending = client.pending; state = initialized },
    )
unfolding run socket_step
socket_answers = refl
