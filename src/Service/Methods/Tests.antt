-- ===== src/Service/Methods/Tests.antt =====
-- The theorems of the method table at a concrete backend.
use tower_lsp.Base.{
  ℕ, ◌≡◌, refl, String, List, [], ◌∷◌, Option, none, some, get_elem?, ok, String_eq,
}
use tower_lsp.Base.Map.{get, insert}
use tower_lsp.JsonRpc.Response.{Response}
use tower_lsp.JsonRpc.Router.{route, method, new, method_not_found_response}
use tower_lsp.JsonRpc.Router.Calls.{Answers, result_response-IsAnswering}
use tower_lsp.Service.Polling.{poll, filter_response}
use tower_lsp.Service.Lsp.{plain, exit, call}
use tower_lsp.Service.Replies.Driven.{drive}
use tower_lsp.Service.Samples.{json, api, fresh, no_flags}
use tower_lsp.Service.Methods.{
  MethodCall, parse_method_calls, cancel_handler, register_lsp_methods, Reply,
}
use tower_lsp.Service.Methods.Table.{language_server}
use tower_lsp.Service.Methods.Builder.{custom_methods, build_router}
use tower_lsp.Service.Methods.Assembly.{build, finish, inner}
use tower_lsp.Service.Methods.Assembly
use tower_lsp.Service.Methods.Assembled.{finish-custom_methods}
use tower_lsp.Service.State.{uninitialized}
use tower_lsp.Service.System.{start}
use tower_lsp.Client.Samples.{channels_api, closed}
use tower_lsp.Client.Requests
use tower_lsp.Service.Methods.Resolution.{own_service}
use tower_lsp.Service.Methods.Serving.{built-drive-call}
use tower_lsp.Service.World.{World}
use tower_lsp.Service.Methods.Samples.{server, customs}

-- the client itself as the backend
finish-custom_methods_example :
    let client = Requests.new {api = channels_api} uninitialized closed in
    let (s, socket) = finish json server api (
      Assembly.custom_methods json server api customs
        (build json server api no_flags closed (λ c. c))) in
    ((i : ℕ) (c : MethodCall)
      → get_elem? (parse_method_calls language_server) i ≡ some c
      → get c.rpc_name s.inner.methods ≡ some (own_service json server c))
    × (get "$/cancelRequest" s.inner.methods ≡ some (plain (cancel_handler json server)))
    × (get "exit" s.inner.methods ≡ some exit)
    × (inner json server api s ≡ client)
    × (s.world ≡ fresh)
    × (socket ≡ client.pending)
unfolding start
finish-custom_methods_example =
    finish-custom_methods json server api {channels = channels_api} customs no_flags closed (λ c. c)

abbrev schedule : List (Option (Reply json server) × World api)
schedule = (none, fresh) ∷ []

built-drive-call_example :
    (r : Option (Response String)) × Answers none r × (none ≡ filter_response json r)
unfolding call poll drive route build_router custom_methods language_server get register_lsp_methods
    method parse_method_calls new insert method_not_found_response
built-drive-call_example =
    built-drive-call json server tt customs api
      (record { method = "unknown"; params = none; id = none }) fresh schedule none
      (result_response-IsAnswering (λ a. ok a), tt) (λ e. cc) refl
