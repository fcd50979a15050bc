-- ===== src/Service/Methods/Resolution.antt =====
-- What the names of the methods stand for: tower-lsp-macros/src/lib.rs and src/service.rs.
use tower_lsp.Base.{
  ℕ, zero, suc, ◌≡◌, refl, subst, ◌∙◌, ap, String, Bool, true, false, not, ◌&&◌, List, [], ◌∷◌,
  none, some, arith, All, get_elem?, ◌==◌, eq_iff, String_eq,
}
use mathlib.Core.Option.{some-injective}
use tower_lsp.Base.Map.{get}
use tower_lsp.JsonRpc.Json.{Json}
use tower_lsp.JsonRpc.Router.{Router, method, new}
use tower_lsp.JsonRpc.Router.Table.{registered, get-method}
use tower_lsp.Service.Lsp.{layered, plain, exit, normal}
use tower_lsp.Service.Methods.{
  MethodCall, Server, Handlers, parse_method_calls, layer_of, handler_of, cancel_handler,
  register_methods, register_lsp_methods,
}
use tower_lsp.Service.Methods.Table.{language_server}
use tower_lsp.Service.Methods.Builder.{CustomHandler, build_router, custom_methods}

module _ {S Service : Type 0} where
  method_kept :
      (name j : String) (h s : Service) (r : Router S Service)
      → get j r.methods ≡ some s
      → get j (method name h r).methods ≡ some s
  method_kept name j h s r e = get-method name j h r ∙ ap (registered name h j) e

  method_new :
      (name : String) (h : Service) (r : Router S Service)
      → get name r.methods ≡ none
      → get name (method name h r).methods ≡ some h
  method_new name h r e =
      get-method name name h r ∙ ap (registered name h name) e ∙ ground (arith, eq_iff name name)

  method_free :
      (name j : String) (h : Service) (r : Router S Service)
      → name == j ≡ false
      → get j r.methods ≡ none
      → get j (method name h r).methods ≡ none
  method_free name j h r other e =
      get-method name j h r ∙ ap (registered name h j) e ∙ ground (arith, other)

-- No method of the list has this name.
abbrev is_unused : String → List MethodCall → Bool
is_unused name [] = true
is_unused name (c ∷ cs) = not (c.rpc_name == name) && is_unused name cs

abbrev are_distinct : List MethodCall → Bool
are_distinct [] = true
are_distinct (c ∷ cs) = is_unused c.rpc_name cs && are_distinct cs

module _ (json : Json) {V A B : Type 0} (server : Server json V A B) where
  abbrev pub own_service : MethodCall → Handlers json server
  own_service c = layered (layer_of c.rpc_name) (handler_of json server c)

  module _ {S : Type 0} where
    register_methods_kept :
        (cs : List MethodCall) (j : String) (s : Handlers json server)
        (r : Router S (Handlers json server))
        → get j r.methods ≡ some s
        → get j (register_methods json server cs r).methods ≡ some s
    unfolding register_methods
    register_methods_kept [] j s r e = e
    register_methods_kept (c ∷ cs) j s r e =
        register_methods_kept cs j s _ (method_kept c.rpc_name j (own_service c) s r e)

    register_methods_free :
        (cs : List MethodCall) (j : String) (r : Router S (Handlers json server))
        → is_unused j cs ≡ true
        → get j r.methods ≡ none
        → get j (register_methods json server cs r).methods ≡ none
    unfolding register_methods
    register_methods_free [] j r h e = e
    register_methods_free (c ∷ cs) j r h e =
        register_methods_free cs j _ (ground (arith, h))
          (method_free c.rpc_name j (own_service c) r (ground (arith, h)) e)

    abbrev AreFree : Router S (Handlers json server) → List MethodCall → Type 0
    AreFree r = All (λ c. get c.rpc_name r.methods ≡ none)

    AreFree-method :
        (d : MethodCall) (cs : List MethodCall) (r : Router S (Handlers json server))
        → is_unused d.rpc_name cs ≡ true
        → AreFree r cs
        → AreFree (method d.rpc_name (own_service d) r) cs
    AreFree-method d [] r h f = tt
    AreFree-method d (c ∷ cs) r h (e, f) = (
      method_free d.rpc_name c.rpc_name (own_service d) r
          (ground (arith, h, eq_iff c.rpc_name d.rpc_name, eq_iff d.rpc_name c.rpc_name)) e,
      AreFree-method d cs r (ground (arith, h)) f,
    )

    register_methods-get :
        (cs : List MethodCall) (i : ℕ) (c : MethodCall) (r : Router S (Handlers json server))
        → are_distinct cs ≡ true
        → AreFree r cs
        → get_elem? cs i ≡ some c
        → get c.rpc_name (register_methods json server cs r).methods ≡ some (own_service c)
    unfolding register_methods
    register_methods-get [] i c r h f e = absurd (cc)
    register_methods-get (d ∷ ds) zero c r h (free, f) e =
        subst
          (λ x.
            get x.rpc_name
              (register_methods json server ds (method d.rpc_name (own_service d) r)).methods
            ≡ some (own_service x))
          (some-injective d c e)
          (register_methods_kept ds d.rpc_name (own_service d) _
            (method_new d.rpc_name (own_service d) r free))
    register_methods-get (d ∷ ds) (suc i) c r h (free, f) e =
        register_methods-get ds i c _ (ground (arith, h))
          (AreFree-method d ds r (ground (arith, h)) f) e

    new_free : (inner : S) (cs : List MethodCall) → AreFree (new inner) cs
    unfolding new get
    new_free inner [] = tt
    new_free inner (c ∷ cs) = (refl, new_free inner cs)

    build_router-method :
        (inner : S) (i : ℕ) (c : MethodCall)
        → get_elem? (parse_method_calls language_server) i ≡ some c
        → get c.rpc_name (build_router json server inner).methods ≡ some (own_service c)
    unfolding build_router register_lsp_methods parse_method_calls language_server
    build_router-method inner i c e = method_kept "exit" c.rpc_name exit (own_service c) _ (
        method_kept "$/cancelRequest" c.rpc_name (plain (cancel_handler json server))
          (own_service c) _
          (register_methods-get (parse_method_calls language_server) i c (new inner) refl
            (new_free inner (parse_method_calls language_server)) e))

    build_router-cancel :
        (inner : S)
        → get "$/cancelRequest" (build_router json server inner).methods
          ≡ some (plain (cancel_handler json server))
    unfolding build_router register_lsp_methods parse_method_calls language_server new get
    build_router-cancel inner =
        method_kept "exit" "$/cancelRequest" exit (plain (cancel_handler json server)) _ (
          method_new "$/cancelRequest" (plain (cancel_handler json server)) _ (
            register_methods_free (parse_method_calls language_server) "$/cancelRequest" (new inner)
              refl refl))

    build_router-exit :
        (inner : S) → get "exit" (build_router json server inner).methods ≡ some exit
    unfolding build_router register_lsp_methods parse_method_calls language_server new get
    build_router-exit inner = method_new "exit" exit _ (
        method_free "$/cancelRequest" "exit" (plain (cancel_handler json server)) _ refl
          (register_methods_free (parse_method_calls language_server) "exit" (new inner) refl refl))

    -- A name that stands for a handler keeps it through any calls of `custom_method`.
    pub custom_methods-kept :
        (customs : List (String × CustomHandler json server)) (j : String)
        (s : Handlers json server) (r : Router S (Handlers json server))
        → get j r.methods ≡ some s
        → get j (custom_methods json server customs r).methods ≡ some s
    unfolding custom_methods
    custom_methods-kept [] j s r e = e
    custom_methods-kept ((name, callback) ∷ rest) j s r e =
        custom_methods-kept rest j s _ (method_kept name j (layered normal callback) s r e)

    -- After `LspService::build` and any calls of `custom_method`, the name of each method of the
    -- trait `LanguageServer` stands for the handler that was made for this method, behind the
    -- layer of its name; "$/cancelRequest" stands for the cancellation handler and "exit" for the
    -- exit layer. So no two methods share a name, and no custom method replaces one.
    pub custom_methods-build_router :
        (customs : List (String × CustomHandler json server)) (inner : S)
        → ((i : ℕ) (c : MethodCall)
            → get_elem? (parse_method_calls language_server) i ≡ some c
            → get c.rpc_name
                (custom_methods json server customs (build_router json server inner)).methods
              ≡ some (own_service c))
          × (get "$/cancelRequest"
                (custom_methods json server customs (build_router json server inner)).methods
              ≡ some (plain (cancel_handler json server)))
          × (get "exit"
                (custom_methods json server customs (build_router json server inner)).methods
              ≡ some exit)
    custom_methods-build_router customs inner = (
      λ i c e. custom_methods-kept customs c.rpc_name _ _ (build_router-method inner i c e),
      custom_methods-kept customs "$/cancelRequest" _ _ (build_router-cancel inner),
      custom_methods-kept customs "exit" _ _ (build_router-exit inner),
    )
