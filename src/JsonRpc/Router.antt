-- ===== src/JsonRpc/Router.antt =====
-- The router and its method handlers: src/jsonrpc/router.rs.
-- A future is a value of type `F` that the caller runs; a handler that runs ends in an `R`.
pub mod Calls
pub mod Table
use Prim.Native.String.{◌++◌}
use mathlib.Core.Option
use tower_lsp.Base.{
  String, Bool, true, false, not, ◌&&◌, Option, none, some, is_some, if◌then◌else◌, Result, ok, err,
  map_err, ◌>>=◌, List, [], String_eq,
}
use tower_lsp.Base.Map.{Map, get, insert}
use tower_lsp.JsonRpc.RequestId.{RequestId}
use tower_lsp.JsonRpc.Json.{Json}
use tower_lsp.JsonRpc.Error.{
  Error, internal_error, method_not_found_object, invalid_params_object, invalid_request_object,
}
use tower_lsp.JsonRpc.Request.{Request}
use tower_lsp.JsonRpc.Response.{Response, from_parts, from_error}

pub record FromParams (Value P : Type 0) : Type 0 where
  pub from_params : Option Value → Result P (Error Value)

pub record IntoResponse (Value R : Type 0) : Type 0 where
  pub into_response : R → Option RequestId → Option (Response Value)
  pub is_notification : Bool

-- `Box<dyn Fn(P) -> BoxFuture<R>>` with the two instances that it is called through.
pub record MethodHandler (Value P F R : Type 0) : Type 0 where
  pub params : FromParams Value P
  pub response : IntoResponse Value R
  pub f : P → F

-- The future that `MethodHandler::call` returns.
pub data HandlerCall (Value F R : Type 0) : Type 0 where
  finished : Option (Response Value) → HandlerCall Value F R
  running : F → IntoResponse Value R → Option RequestId → HandlerCall Value F R

pub record Router (S Service : Type 0) : Type 0 where
  pub server : S
  pub methods : Map String Service

pub data Routed (Value Service : Type 0) : Type 0 where
  service : Service → Routed Value Service
  not_found : Option (Response Value) → Routed Value Service

-- Registration: `methods.entry(name).or_insert_with(...)`.
module _ {S Service : Type 0} where
  unfoldable pub new : S → Router S Service
  new server = record { server = server; methods = [] }

  unfoldable pub method : String → Service → Router S Service → Router S Service
  method name handler r = elim (get name r.methods) [
    | none ↦ record r { methods = insert name handler r.methods }
    | some taken ↦ r
  ]

module _ {Value : Type 0} where
  -- `()` as the result of a notification handler
  unfoldable pub unit_response : IntoResponse Value (Unit {0})
  unit_response = record {
    into_response = λ _ id. Option.map (λ i. from_error i invalid_request_object) id;
    is_notification = true;
  }

  -- `Result<R, Error>` as the result of a request handler; `to_value` serialises an `A`.
  serialize_result : {A : Type 0} → (A → Result Value String) → A → Result Value (Error Value)
  serialize_result to_value a =
      map_err (λ e. record { code = internal_error; message = e; payload = none }) (to_value a)

  unfoldable pub result_response :
      {A : Type 0} → (A → Result Value String) → IntoResponse Value (Result A (Error Value))
  unfolding serialize_result
  result_response to_value = record {
    into_response = λ r id. Option.map (λ i. from_parts i (r >>= serialize_result to_value)) id;
    is_notification = false;
  }

  -- The handler runs only once the parameters are read.
  unfoldable pub start_handler :
      {P F R : Type 0}
      → MethodHandler Value P F R
      → Option RequestId
      → Result P (Error Value)
      → HandlerCall Value F R
  start_handler h id (ok params) = running (h.f params) h.response id
  start_handler h id (err e) = finished (Option.map (λ i. from_error i e) id)

  -- The answer to a request that meets a notification handler, or the other way round.
  unfoldable pub kind_mismatch : Option RequestId → Bool → Option (Option (Response Value))
  unfolding unit_response
  kind_mismatch (some i) true = some (unit_response.into_response tt (some i))
  kind_mismatch none false = some none
  kind_mismatch _ _ = none

  unfoldable pub call_handler :
      {P F R : Type 0} → MethodHandler Value P F R → Request Value → HandlerCall Value F R
  unfolding start_handler kind_mismatch
  call_handler h req = elim (kind_mismatch req.id h.response.is_notification) [
    | some r ↦ finished r
    | none ↦ start_handler h req.id (h.params.from_params req.params)
  ]

module _ (json : Json) where
  open json use {Value, from_string, display}

  -- `()` as parameters
  unfoldable pub no_params : FromParams Value (Unit {0})
  no_params = record {
    from_params = elim [
      | some p ↦ err (invalid_params_object ("Unexpected params: " ++ display p))
      | none ↦ ok tt
    ];
  }

  -- `(P,)` as parameters; `from_value` deserialises a `P`.
  unfoldable pub required_params : {P : Type 0} → (Value → Result P String) → FromParams Value P
  required_params from_value = record {
    from_params = elim [
      | some p ↦ map_err invalid_params_object (from_value p)
      | none ↦ err (invalid_params_object "Missing params field")
    ];
  }

  unfoldable pub method_not_found_response : Request Value → Option (Response Value)
  method_not_found_response req =
      Option.map
        (λ i.
          from_error i (record method_not_found_object { payload = some (from_string req.method) }))
        req.id

  unfoldable pub route :
      {S Service : Type 0} → Router S Service → Request Value → Routed Value Service
  route r req = elim (get req.method r.methods) [
    | some s ↦ service s
    | none ↦ not_found (method_not_found_response req)
  ]
