-- ===== src/Service/Methods.antt =====
-- How the service gets its methods: the macro of tower-lsp-macros/src/lib.rs and the builder of
-- src/service.rs.
pub mod Table
pub mod Builder
pub mod Assembly
pub mod Resolution
pub mod Assembled
pub mod Samples
mod Tests
pub mod Serving
use tower_lsp.Base.{
  String, List, [], ◌∷◌, Option, none, some, Result, ok, err, ◌>>=◌, if◌then◌else◌, ◌==◌, String_eq,
}
use tower_lsp.JsonRpc.RequestId.{RequestId, NumberOrString, from_number_or_string}
use tower_lsp.JsonRpc.Json.{Json}
use tower_lsp.JsonRpc.Error.{Error, method_not_found_object}
use tower_lsp.JsonRpc.Router.{
  Router, MethodHandler, FromParams, IntoResponse, method, new, no_params, required_params,
  unit_response, result_response,
}
use tower_lsp.Service.Lsp.{BoxService, layered, plain, exit, Layer, initialize, shutdown, normal}

-- What a method of the trait does if the backend does not define it: nothing there, or a warning
-- only, or an error in the log and the answer that the method was not found.
pub data DefaultBody : Type 0 where
  required ignored unimplemented : DefaultBody

-- A method with its `#[rpc(name = ..)]`; the types are their texts.
pub record TraitMethod : Type 0 where
  pub rpc_name : String
  pub handler_name : String
  pub params : Option String
  pub result : Option String
  pub body : DefaultBody

pub data TraitItem : Type 0 where
  function : TraitMethod → TraitItem
  other_item : TraitItem

pub record MethodCall : Type 0 where
  pub rpc_name : String
  pub handler_name : String
  pub params : Option String
  pub result : Option String

unfoldable pub call_of : TraitMethod → MethodCall
call_of m = record {
  rpc_name = m.rpc_name;
  handler_name = m.handler_name;
  params = m.params;
  result = m.result;
}

unfoldable pub parse_method_calls : List TraitItem → List MethodCall
unfolding call_of
parse_method_calls [] = []
parse_method_calls (function m ∷ items) = call_of m ∷ parse_method_calls items
parse_method_calls (other_item ∷ items) = parse_method_calls items

unfoldable pub layer_of : String → Layer
layer_of rpc_name =
    if rpc_name == "initialize"
    then initialize
    else if rpc_name == "shutdown"
    then shutdown
    else normal

-- What the default body of a method without a definition of the backend ends in.
unfoldable pub default_result : {Value A : Type 0} → DefaultBody → Option (Result A (Error Value))
default_result unimplemented = some (err method_not_found_object)
default_result _ = none

-- The types of the program, each by its text, in one: serde reads every parameter into a `V` and
-- makes a value of every result in `A`. `backend` is the future of a method of the backend.
pub record Server (json : Json) (V A B : Type 0) : Type 0 where
  pub from_value : String → json.Value → Result V String
  pub to_value : String → A → Result json.Value String
  pub cancel_params : json.Value → Result NumberOrString String
  pub backend : String → Option V → B

module _ (json : Json) {V A B : Type 0} (server : Server json V A B) where
  open json use {Value}

  abbrev pub Reply : Type 0
  Reply = Result A (Error Value)

  unfoldable pub params_of : Option String → FromParams Value (Option V)
  params_of none = record { from_params = λ p. (no_params json).from_params p >>= λ _. ok none }
  params_of (some type) = record {
    from_params =
        λ p. (required_params json (server.from_value type)).from_params p >>= λ v. ok (some v);
  }

  -- A handler without a result ends in nothing that is read.
  unfoldable pub response_of : Option String → IntoResponse Value Reply
  response_of none = record {
    into_response = λ _ id. unit_response.into_response tt id;
    is_notification = (unit_response {Value = Value}).is_notification;
  }
  response_of (some type) = result_response (server.to_value type)

  unfoldable pub handler_of : MethodCall → MethodHandler Value (Option V) B Reply
  unfolding params_of response_of
  handler_of c = record {
    params = params_of c.params;
    response = response_of c.result;
    f = server.backend c.handler_name;
  }

  unfoldable pub cancel_handler : MethodHandler Value NumberOrString RequestId (Unit {0})
  cancel_handler = record {
    params = required_params json server.cancel_params;
    response = unit_response;
    f = from_number_or_string;
  }

  abbrev pub Handlers : Type 0
  Handlers = BoxService Value (Option V) B Reply

  module _ {S : Type 0} where
    -- The registrations that the macro writes, one for each method of the trait.
    unfoldable pub register_methods : List MethodCall → Router S Handlers → Router S Handlers
    register_methods [] r = r
    register_methods (c ∷ cs) r =
        register_methods cs (method c.rpc_name (layered (layer_of c.rpc_name) (handler_of c)) r)

    unfoldable pub register_lsp_methods : List MethodCall → Router S Handlers → Router S Handlers
    unfolding register_methods
    register_lsp_methods calls r =
        method "exit" exit
          (method "$/cancelRequest" (plain cancel_handler) (register_methods calls r))
