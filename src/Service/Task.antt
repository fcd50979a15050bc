-- ===== src/Service/Task.antt =====
-- The futures of the service. Each constructor but `ready` is an `async` block or a future
-- combinator of the program, with what it has captured; a poll runs it up to its next wait.
use tower_lsp.Base.{Option, Result}
use tower_lsp.JsonRpc.RequestId.{RequestId}
use tower_lsp.JsonRpc.Response.{Response}
use tower_lsp.JsonRpc.Router.{IntoResponse}
use tower_lsp.Service.Abort.{AbortApi}
use tower_lsp.Service.World.{World}

-- `ExitedError(())`
pub data ExitedError : Type 0 where
  exited_error : ExitedError

abbrev pub Outcome : Type 0 → Type 0
Outcome Value = Result (Option (Response Value)) ExitedError

pub data Poll (P A : Type 0) : Type 0 where
  pending : P → Poll P A
  ready : A → Poll P A

-- `H` is the type of abort handles, `B` that of the futures of the user's handlers, and `R` that
-- of their results.
pub data Task (Value H B R : Type 0) : Type 0 where
  -- `future::ok(..)` and `future::err(..)`
  done : Outcome Value → Task Value H B R
  -- `MethodHandler::call`, around a future of the language server backend
  running : B → IntoResponse Value R → Option RequestId → Task Value H B R
  -- the same around `cancel_request`, for the identifier to cancel
  cancelling : RequestId → IntoResponse Value (Unit {0}) → Option RequestId → Task Value H B R
  -- `Pending::execute`, in the branch for a vacant entry
  abortable : H → RequestId → Task Value H B R → Task Value H B R
  -- `InitializeService::call`
  initializing : Task Value H B R → Task Value H B R
  -- `LspService::call`
  filtering : Task Value H B R → Task Value H B R

-- What a call hands out: the world behind it, and a future.
abbrev pub Called : AbortApi → Type 0 → Type 0 → Type 0 → Type 0
Called api Value B R = World api × Task Value api.Handle B R

-- What a poll leaves behind: the world, and the future or how it ended.
abbrev pub Polled : AbortApi → Type 0 → Type 0 → Type 0 → Type 0
Polled api Value B R = World api × Poll (Task Value api.Handle B R) (Outcome Value)
