-- ===== src/Service/Methods/Assembled.antt =====
-- What `LspService::build`, `custom_method` and `finish` of src/service.rs make together.
use tower_lsp.Base.{ℕ, ◌≡◌, refl, ◌∙◌, arith, String, String_eq, List, [], ◌∷◌, some, get_elem?}
use tower_lsp.Base.Map.{get}
use tower_lsp.JsonRpc.Json.{Json}
use tower_lsp.JsonRpc.Response.{Response}
use tower_lsp.JsonRpc.Router.{Router, method, new}
use tower_lsp.Service.State.{uninitialized}
use tower_lsp.Service.Abort.{AbortApi}
use tower_lsp.Service.Lsp.{layered, normal, plain, exit}
use tower_lsp.Service.System.{start}
use tower_lsp.Service.Methods.{
  MethodCall, Server, Reply, Handlers, parse_method_calls, cancel_handler, register_methods,
  register_lsp_methods,
}
use tower_lsp.Service.Methods.Table.{language_server}
use tower_lsp.Service.Methods.Builder.{CustomHandler, build_router}
use tower_lsp.Service.Methods.Builder
use tower_lsp.Service.Methods.Assembly.{
  LspServiceBuilder, build, custom_method, custom_methods, finish, inner,
}
use tower_lsp.Service.Methods.Resolution.{own_service, custom_methods-build_router}
use tower_lsp.Client.Oneshot.{OneshotApi}
use tower_lsp.Client.Requests.{Client}
use tower_lsp.Client.Requests

method-server :
    {S Service : Type 0} (name : String) (h : Service) (r : Router S Service)
    → (method name h r).server ≡ r.server
unfolding method
method-server name h r = ground arith

module _ (json : Json) {V A B : Type 0} (server : Server json V A B) {S : Type 0} where
  register_methods-server :
      (cs : List MethodCall) (r : Router S (Handlers json server))
      → (register_methods json server cs r).server ≡ r.server
  unfolding register_methods
  register_methods-server [] r = refl
  register_methods-server (c ∷ cs) r =
      register_methods-server cs _ ∙ method-server c.rpc_name (own_service json server c) r

  build_router-server : (b : S) → (build_router json server b).server ≡ b
  unfolding build_router register_lsp_methods new
  build_router-server b =
      method-server "exit" exit _
      ∙ method-server "$/cancelRequest" _ _
      ∙ register_methods-server (parse_method_calls language_server) (new b)

  custom_methods-server :
      (customs : List (String × CustomHandler json server)) (r : Router S (Handlers json server))
      → (Builder.custom_methods json server customs r).server ≡ r.server
  unfolding Builder.custom_methods Builder.custom_method
  custom_methods-server [] r = refl
  custom_methods-server ((name, callback) ∷ rest) r =
      custom_methods-server rest _ ∙ method-server name (layered normal callback) r

  module _ (api : AbortApi) {channels : OneshotApi (Response json.Value)} where
    -- A custom method changes the router only.
    finish-customized :
        (customs : List (String × CustomHandler json server))
        (b : LspServiceBuilder json server api channels S)
        → finish json server api (custom_methods json server api customs b) ≡ (
          record { inner = Builder.custom_methods json server customs b.inner; world = b.world },
          b.socket,
        )
    unfolding finish custom_methods custom_method Builder.custom_methods Builder.custom_method
    finish-customized [] b = refl
    finish-customized ((name, callback) ∷ rest) b =
        finish-customized rest (custom_method json server api name callback b)

    -- Of the service that `LspService::build`, any calls of `custom_method` and `finish` make:
    -- the name of each method of the trait `LanguageServer` stands for the handler that was made
    -- for this method, behind the layer of its name; "$/cancelRequest" stands for the
    -- cancellation handler and "exit" for the exit layer. So no two methods share a name, and no
    -- custom method replaces one. The backend is what `init` makes of the new client, the world
    -- is that from which runs of the service start, and the socket has the waiters of this
    -- client.
    pub finish-custom_methods :
        (customs : List (String × CustomHandler json server)) (flags : api.Flags)
        (made : channels.Channels) (init : Client channels → S)
        → let client = Requests.new uninitialized made in
          let (s, socket) =
            finish json server api
              (custom_methods json server api customs (build json server api flags made init)) in
          ((i : ℕ) (c : MethodCall)
            → get_elem? (parse_method_calls language_server) i ≡ some c
            → get c.rpc_name s.inner.methods ≡ some (own_service json server c))
          × (get "$/cancelRequest" s.inner.methods ≡ some (plain (cancel_handler json server)))
          × (get "exit" s.inner.methods ≡ some exit)
          × (inner json server api s ≡ init client)
          × (s.world ≡ (start {Value = json.Value} {B = B} {R = Reply json server} api flags).world)
          × (socket ≡ client.pending)
    unfolding build inner start
    finish-custom_methods customs flags made init =
        let client = Requests.new uninitialized made in
        let e = finish-customized customs (build json server api flags made init) in
        let (own, cancelled, exits) =
          custom_methods-build_router json server customs (init client) in
        (
          λ i c there. rw e (own i c there),
          rw e cancelled,
          rw e exits,
          rw
              (
                e,
                custom_methods-server customs (build_router json server (init client)),
                build_router-server (init client),
              )
              refl,
          rw e refl,
          rw e refl,
        )
