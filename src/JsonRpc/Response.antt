-- ===== src/JsonRpc/Response.antt =====
-- Responses: src/jsonrpc/response.rs.
use tower_lsp.Base.{◌≡◌, refl, Bool, true, false, not, Option, none, some, Result, ok, err, arith}
use tower_lsp.JsonRpc.RequestId.{RequestId}
use tower_lsp.JsonRpc.Error.{Error}

pub data Kind (Value : Type 0) : Type 0 where
  ok_kind : Value → Kind Value
  err_kind : Error Value → Kind Value

pub record Response (Value : Type 0) : Type 0 where
  pub kind : Kind Value
  pub id : RequestId

module _ {Value : Type 0} where
  unfoldable pub from_ok : RequestId → Value → Response Value
  from_ok id result = record { kind = ok_kind result; id = id }

  unfoldable pub from_error : RequestId → Error Value → Response Value
  from_error id error = record { kind = err_kind error; id = id }

  unfoldable pub from_parts : RequestId → Result Value (Error Value) → Response Value
  unfolding from_ok from_error
  from_parts id (ok result) = from_ok id result
  from_parts id (err error) = from_error id error

  abbrev kind_into_result : Kind Value → Result Value (Error Value)
  kind_into_result (ok_kind result) = ok result
  kind_into_result (err_kind error) = err error

  unfoldable pub into_parts : Response Value → RequestId × Result Value (Error Value)
  into_parts r = (r.id, kind_into_result r.kind)

  abbrev kind_is_ok : Kind Value → Bool
  kind_is_ok (ok_kind result) = true
  kind_is_ok (err_kind error) = false

  unfoldable pub is_ok : Response Value → Bool
  is_ok r = kind_is_ok r.kind

  unfoldable pub is_error : Response Value → Bool
  unfolding is_ok
  is_error r = not (is_ok r)

  abbrev kind_result : Kind Value → Option Value
  kind_result (ok_kind result) = some result
  kind_result (err_kind error) = none

  unfoldable pub result : Response Value → Option Value
  result r = kind_result r.kind

  abbrev kind_error : Kind Value → Option (Error Value)
  kind_error (ok_kind result) = none
  kind_error (err_kind error) = some error

  unfoldable pub error : Response Value → Option (Error Value)
  error r = kind_error r.kind

  -- A response is its identifier and its outcome, and nothing else.
  pub into_parts-from_parts :
      (id : RequestId) (body : Result Value (Error Value))
      → into_parts (from_parts id body) ≡ (id, body)
  unfolding into_parts from_parts
  into_parts-from_parts id (ok result) = refl
  into_parts-from_parts id (err error) = refl

  -- A response that is split into its identifier and its outcome is made again from the two.
  pub from_parts-into_parts :
      (r : Response Value) → from_parts (into_parts r).0 (into_parts r).1 ≡ r
  unfolding into_parts from_parts
  from_parts-into_parts r = ground arith
