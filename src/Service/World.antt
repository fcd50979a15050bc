-- ===== src/Service/World.antt =====
-- What the layers of the service share by `Arc`: src/service.rs.
use tower_lsp.Base.{Bool}
use tower_lsp.Base.Map.{Map}
use tower_lsp.JsonRpc.RequestId.{RequestId}
use tower_lsp.Service.State.{State}
use tower_lsp.Service.Abort.{AbortApi}

-- `state` stands for the atomic cell, by `State.get-set`; `closed` says that the client's channel
-- has been closed.
pub record World (api : AbortApi) : Type 0 where
  pub state : State
  pub pending : Map RequestId api.Handle
  pub flags : api.Flags
  pub closed : Bool
