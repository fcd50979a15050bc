-- ===== src/Transport/Completion.antt =====
-- When `serve` is over: src/transport.rs.
use tower_lsp.Base.{Bool, true, false, not, ◌&&◌, ◌||◌, ◌==◌}
use tower_lsp.JsonRpc.Response.{Response}
use tower_lsp.Service.State.{exited, State_eq}
use tower_lsp.Service.Abort.{AbortApi}
use tower_lsp.Client.Oneshot.{OneshotApi}
use tower_lsp.Transport.Connection.{Reading, returned, ended, Connection, are_done}

abbrev pub has_read : {Value : Type 0} → Reading Value → Bool
has_read ended = true
has_read returned = true
has_read _ = false

module _ {Value : Type 0} {api : AbortApi} {channels : OneshotApi (Response Value)}
    {B R : Type 0} where
  -- `process_server_tasks` ends with its stream, and drops the clone of `responses_tx` then.
  unfoldable pub are_tasks_processed : Connection api channels B R → Bool
  are_tasks_processed k = not k.tasks_open && are_done k.system.slots

  -- `print_output` ends with both of its streams; that of the client's requests ends when it is
  -- aborted, or when the server has exited.
  unfoldable pub is_output_printed : Connection api channels B R → Bool
  is_output_printed k =
      (not k.responses_open && are_tasks_processed k)
      && (k.requests_aborted || k.system.world.state == exited)

  -- `join!`
  unfoldable pub is_served : Connection api channels B R → Bool
  unfolding is_output_printed are_tasks_processed
  is_served k = (is_output_printed k && has_read k.read_input) && are_tasks_processed k
