-- ===== src/Service/Methods/Serving.antt =====
-- The service that `LspService::build` makes, with any custom methods: src/service.rs.
use tower_lsp.Base.{
  ℕ, ◌≡◌, refl, sym, subst, ◌≢◌, ◌∙◌, ap, inl, inr, String, List, [], ◌∷◌, Option, none, some, ok,
  arith, All, get_elem?, Bool-cases, ◌==◌, eq_iff, String_eq,
}
use mathlib.Core.Option.{some-injective}
use tower_lsp.Base.Map.{get}
use tower_lsp.JsonRpc.Json.{Json}
use tower_lsp.JsonRpc.Request.{Request}
use tower_lsp.JsonRpc.Response.{Response}
use tower_lsp.JsonRpc.Router.{Router, method, new}
use tower_lsp.JsonRpc.Router.Calls.{
  Answers, IsAnswering, unit_response-IsAnswering, result_response-IsAnswering,
}
use tower_lsp.JsonRpc.Router.Table.{registered, get-method}
use tower_lsp.Service.State.{initialized, exited}
use tower_lsp.Service.Abort.{AbortApi}
use tower_lsp.Service.World.{World}
use tower_lsp.Service.Task.{ready, done, filtering}
use tower_lsp.Service.Polling.{filter_response}
use tower_lsp.Service.Lsp.{BoxService, layered, plain, exit, normal, initialize, call}
use tower_lsp.Service.Replies.Calls.{IsGood}
use tower_lsp.Service.Replies.Driven.{drive, drive-call, IsGoodRouter}
use tower_lsp.Service.Lifecycle.Gate.{Refuses, call_refused}
use tower_lsp.Service.Methods.{
  MethodCall, Server, Reply, Handlers, parse_method_calls, layer_of, handler_of, response_of,
  cancel_handler, register_methods, register_lsp_methods,
}
use tower_lsp.Service.Methods.Table.{language_server}
use tower_lsp.Service.Methods.Builder.{CustomHandler, build_router, custom_method, custom_methods}
use tower_lsp.Service.Methods.Resolution.{custom_methods-build_router, own_service}

-- What holds of every registered name and its handler.
abbrev Holds : {S Service : Type 0} → (String → Service → Type 0) → Router S Service → Type 0
Holds {Service = Service} Q r = (j : String) (s : Service) → get j r.methods ≡ some s → Q j s

module _ {Service : Type 0} (Q : String → Service → Type 0) where
  registered-Holds :
      (name j : String) (h s : Service) (before : Option Service)
      → Q name h
      → ((t : Service) → before ≡ some t → Q j t)
      → registered name h j before ≡ some s
      → Q j s
  registered-Holds name j h s (some t) q old e = subst (Q j) (some-injective t s e) (old t refl)
  registered-Holds name j h s none q old e = elim (Bool-cases (name == j)) [
    | inl same ↦
        subst (λ k. Q k s) ((eq_iff name j).0 same)
          (subst (Q name) (some-injective h s (rw (same) at e)) q)
    | inr other ↦ let e' : ◌≡◌ {A = Option Service} none (some s) = rw (other) at e in absurd (cc)
  ]

  method-Holds :
      {S : Type 0} (name : String) (h : Service) (r : Router S Service)
      → Q name h
      → Holds Q r
      → Holds Q (method name h r)
  method-Holds name h r q old j s e =
      registered-Holds name j h s (get j r.methods) q (old j) (sym (get-method name j h r) ∙ e)

-- A handler that answers; only `exit` stands behind the exit layer.
abbrev IsProper : {Value P B R : Type 0} → String → BoxService Value P B R → Type 0
IsProper j s = IsGood s × (s ≡ exit → j ≡ "exit")

layer_of-other : (name : String) → name ≢ "initialize" → layer_of name ≢ initialize
unfolding layer_of
layer_of-other name other = ground (arith, eq_iff name "initialize")

module _ (json : Json) {V A B : Type 0} (server : Server json V A B) where
  open json use {Value}

  response_of-IsAnswering : (result : Option String) → IsAnswering (response_of json server result)
  unfolding response_of
  response_of-IsAnswering none = record {
    answers = λ r id. unit_response-IsAnswering.answers tt id;
  }
  response_of-IsAnswering (some type) = result_response-IsAnswering (server.to_value type)

  -- The user's handlers answer by instances of `IntoResponse`.
  abbrev pub AreAnswering : List (String × CustomHandler json server) → Type 0
  AreAnswering = All (λ e. IsAnswering e.1.response)

  module _ {S : Type 0} where
    register_methods-Holds :
        (cs : List MethodCall) (r : Router S (Handlers json server))
        → Holds IsProper r
        → Holds IsProper (register_methods json server cs r)
    unfolding register_methods handler_of
    register_methods-Holds [] r p = p
    register_methods-Holds (c ∷ cs) r p = register_methods-Holds cs _ (
        method-Holds IsProper c.rpc_name (own_service json server c) r
          (response_of-IsAnswering c.result, λ e. absurd (cc)) p)

    build_router-Holds : (inner : S) → Holds IsProper (build_router json server inner)
    unfolding build_router register_lsp_methods new get cancel_handler
    build_router-Holds inner =
        method-Holds IsProper "exit" exit _ (tt, λ e. refl)
          (method-Holds IsProper "$/cancelRequest" (plain (cancel_handler json server)) _
            (unit_response-IsAnswering, λ e. absurd (cc))
            (register_methods-Holds (parse_method_calls language_server) (new inner)
              (λ j s e. absurd (cc))))

    custom_methods-Holds :
        (customs : List (String × CustomHandler json server)) (r : Router S (Handlers json server))
        → AreAnswering customs
        → Holds IsProper r
        → Holds IsProper (custom_methods json server customs r)
    unfolding custom_methods custom_method
    custom_methods-Holds [] r a p = p
    custom_methods-Holds ((name, callback) ∷ rest) r (a, b) p =
        custom_methods-Holds rest _ b
          (method-Holds IsProper name (layered normal callback) r (a, λ e. absurd (cc)) p)

  module _ {S : Type 0} (inner : S) (customs : List (String × CustomHandler json server)) where
    -- The router of a service with custom methods.
    abbrev pub built : Router S (Handlers json server)
    built = custom_methods json server customs (build_router json server inner)

    built-Holds : AreAnswering customs → Holds IsProper built
    built-Holds a =
        custom_methods-Holds customs (build_router json server inner) a (build_router-Holds inner)

    pub built-IsGoodRouter : (api : AbortApi) → AreAnswering customs → IsGoodRouter json api built
    built-IsGoodRouter api a name s known = (built-Holds a name s known).0

    -- On the service that `LspService::build` makes, with any custom methods that answer by
    -- instances of `IntoResponse`: however the future of a call of a method other than `exit` is
    -- polled, and whatever happens in between, if it ends in a value, this is the filtered form
    -- of an answer to the request. So a request is answered under its own identifier or, if the
    -- filter drops the answer, not at all; and a notification is not answered.
    pub built-drive-call :
        (api : AbortApi) (req : Request Value) (w : World api)
        (schedule : List (Option (Reply json server) × World api)) (res : Option (Response Value))
        → AreAnswering customs
        → req.method ≢ "exit"
        → drive json api schedule (call json built req w).1 ≡ ready (ok res)
        → (r : Option (Response Value)) × Answers req.id r × (res ≡ filter_response json r)
    built-drive-call api req w schedule res a other e =
        let proper = built-Holds a in
        drive-call json api built (λ j s known. (proper j s known).0) req w schedule res
          (λ known. other ((proper req.method exit known).1 refl)) e

    -- On the service that `LspService::build` makes, with any custom methods, in a state other
    -- than `initialized` and `exited`: every method of the trait `LanguageServer` but
    -- `initialize` is refused and the world stays as it is. A request gets the error -32002
    -- before initialization and -32600 after shutdown, under its identifier, and a notification
    -- nothing.
    pub built_refused :
        (api : AbortApi) (i : ℕ) (c : MethodCall) (req : Request Value) (w : World api)
        → get_elem? (parse_method_calls language_server) i ≡ some c
        → c.rpc_name ≢ "initialize"
        → req.method ≡ c.rpc_name
        → w.state ≢ initialized
        → w.state ≢ exited
        → (res : Option (Response Value)) × (call json built req w ≡ (w, filtering (done (ok res))))
          × Refuses req.id w.state res
    built_refused api i c req w there other named early here =
        call_refused json built req w (layer_of c.rpc_name) (handler_of json server c)
          (ap (λ n. get n built.methods) named
            ∙ (custom_methods-build_router json server customs inner).0 i c there)
          (layer_of-other c.rpc_name other) early here
