-- ===== src/Service/Methods/Builder.antt =====
-- `LspService::build` and `LspServiceBuilder` of src/service.rs.
use tower_lsp.Base.{String, List, [], ◌∷◌, Option}
use tower_lsp.JsonRpc.Json.{Json}
use tower_lsp.JsonRpc.Router.{Router, MethodHandler, method, new}
use tower_lsp.Service.Lsp.{layered, normal}
use tower_lsp.Service.Methods.{Server, Reply, Handlers, parse_method_calls, register_lsp_methods}
use tower_lsp.Service.Methods.Table.{language_server}

module _ (json : Json) {V A B : Type 0} (server : Server json V A B) where
  -- A handler of the user, with the instances for its parameters and its result.
  abbrev pub CustomHandler : Type 0
  CustomHandler = MethodHandler json.Value (Option V) B (Reply json server)

  module _ {S : Type 0} where
    -- The router of `LspService::build`, around the backend `inner`.
    unfoldable pub build_router : S → Router S (Handlers json server)
    build_router inner =
        register_lsp_methods json server (parse_method_calls language_server) (new inner)

    unfoldable pub custom_method :
        String → CustomHandler → Router S (Handlers json server) → Router S (Handlers json server)
    custom_method name callback r = method name (layered normal callback) r

    -- A chain of calls of `custom_method`.
    unfoldable pub custom_methods :
        List (String × CustomHandler)
        → Router S (Handlers json server)
        → Router S (Handlers json server)
    unfolding custom_method
    custom_methods [] r = r
    custom_methods ((name, callback) ∷ rest) r = custom_methods rest (custom_method name callback r)
