-- ===== src/JsonRpc/Request.antt =====
-- Requests and notifications, and their builder: src/jsonrpc/request.rs.
use tower_lsp.Base.{String, Option, none, some}
use tower_lsp.JsonRpc.RequestId.{RequestId}

pub record Request (Value : Type 0) : Type 0 where
  pub method : String
  pub params : Option Value
  pub id : Option RequestId

pub record RequestBuilder (Value : Type 0) : Type 0 where
  pub method : String
  pub params : Option Value
  pub id : Option RequestId

module _ {Value : Type 0} where
  unfoldable pub build : String → RequestBuilder Value
  build method = record { method = method; params = none; id = none }

  unfoldable pub set_id : RequestId → RequestBuilder Value → RequestBuilder Value
  set_id id b = record b { id = some id }

  unfoldable pub set_params : Value → RequestBuilder Value → RequestBuilder Value
  set_params params b = record b { params = some params }

  unfoldable pub finish : RequestBuilder Value → Request Value
  finish b = record { method = b.method; params = b.params; id = b.id }

  -- `to_value` has run already: the callers of these panic where it fails.
  unfoldable pub from_request : String → RequestId → Value → Request Value
  from_request method id params = record { method = method; params = some params; id = some id }

  unfoldable pub from_notification : String → Value → Request Value
  from_notification method params = record { method = method; params = some params; id = none }

  unfoldable pub into_parts : Request Value → String × Option RequestId × Option Value
  into_parts r = (r.method, r.id, r.params)
