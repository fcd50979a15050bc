-- ===== src/Service/Methods/Assembly.antt =====
-- `LspService` and `LspServiceBuilder` with what they share: src/service.rs.
use tower_lsp.Base.{String, false, List, [], ◌∷◌}
use tower_lsp.JsonRpc.Json.{Json}
use tower_lsp.JsonRpc.Response.{Response}
use tower_lsp.JsonRpc.Router.{Router}
use tower_lsp.Service.State.{uninitialized}
use tower_lsp.Service.Abort.{AbortApi}
use tower_lsp.Service.World.{World}
use tower_lsp.Service.Methods.{Server, Handlers}
use tower_lsp.Service.Methods.Builder.{CustomHandler, build_router}
use tower_lsp.Service.Methods.Builder
use tower_lsp.Client.Oneshot.{OneshotApi}
use tower_lsp.Client.Waiters.{Pending}
use tower_lsp.Client.Requests.{Client}
use tower_lsp.Client.Requests

-- The `Display` instance of `ExitedError`.
unfoldable pub display_exited : String
display_exited = "language server has exited"

module _ (json : Json) {V A B : Type 0} (server : Server json V A B) (api : AbortApi)
    (channels : OneshotApi (Response json.Value)) (S : Type 0) where
  -- The state and the table of requests stand in `world`; of the socket's fields, the client's table
  -- of waiters is what is not there already.
  pub record LspServiceBuilder : Type 0 where
    pub inner : Router S (Handlers json server)
    pub world : World api
    pub socket : Pending channels

  pub record LspService : Type 0 where
    pub inner : Router S (Handlers json server)
    pub world : World api

module _ (json : Json) {V A B : Type 0} (server : Server json V A B) (api : AbortApi)
    {channels : OneshotApi (Response json.Value)} {S : Type 0} where
  -- `flags` and `made` are whatever handles and channels the process has made.
  unfoldable pub build :
      api.Flags
      → channels.Channels
      → (Client channels → S)
      → LspServiceBuilder json server api channels S
  unfolding Requests.new build_router
  build flags made init =
      let client = Requests.new uninitialized made in
      record {
        inner = build_router json server (init client);
        world = record { state = uninitialized; pending = []; flags = flags; closed = false };
        socket = client.pending;
      }

  unfoldable pub custom_method :
      String
      → CustomHandler json server
      → LspServiceBuilder json server api channels S
      → LspServiceBuilder json server api channels S
  unfolding Builder.custom_method
  custom_method name callback b = record b {
    inner = Builder.custom_method json server name callback b.inner;
  }

  -- A chain of calls of `custom_method`.
  unfoldable pub custom_methods :
      List (String × CustomHandler json server)
      → LspServiceBuilder json server api channels S
      → LspServiceBuilder json server api channels S
  unfolding custom_method
  custom_methods [] b = b
  custom_methods ((name, callback) ∷ rest) b = custom_methods rest (custom_method name callback b)

  unfoldable pub finish :
      LspServiceBuilder json server api channels S
      → LspService json server api channels S × Pending channels
  finish b = (record { inner = b.inner; world = b.world }, b.socket)

  unfoldable pub new :
      api.Flags
      → channels.Channels
      → (Client channels → S)
      → LspService json server api channels S × Pending channels
  unfolding build finish
  new flags made init = finish (build flags made init)

  -- `LspService::inner`, by `Router::inner`
  unfoldable pub inner : LspService json server api channels S → S
  inner s = s.inner.server
