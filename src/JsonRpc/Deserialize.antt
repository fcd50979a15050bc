-- ===== src/JsonRpc/Deserialize.antt =====
-- How messages are read from JSON: the `Deserialize` instances of src/jsonrpc.rs,
-- src/jsonrpc/request.rs, src/jsonrpc/response.rs and src/jsonrpc/error.rs. `none` is an error of
-- serde_json; which one it is, is not modelled.
pub mod Order
pub mod Valid
pub mod Written
pub mod RoundTrip
use mathlib.Core.Option
use tower_lsp.Base.{
  ℕ, ◌+◌, ◌^◌, String, Bool, List, [], ◌∷◌, Option, none, some, Result, ok, err, length, get_elem?,
  ltb, if◌then◌else◌,
}
use tower_lsp.Base.Options.{◌>>=◌}
use tower_lsp.Base.Int.{ℤ, pos, negsuc}
use tower_lsp.JsonRpc.RequestId.{RequestId, Version, deserialize_version}
use tower_lsp.JsonRpc.Error.{ErrorCode, Error, from_i64}
use tower_lsp.JsonRpc.Request.{Request}
use tower_lsp.JsonRpc.Response.{Kind, ok_kind, err_kind, Response}
use tower_lsp.JsonRpc.Message.{Message, response, request}
use tower_lsp.JsonRpc.Document.{Shape, integer, text, array, object, SerdeJson}
use tower_lsp.JsonRpc.Members.{member, unclaimed, are_known}

-- Whether a number is one of an i64.
abbrev pub is_i64 : ℤ → Bool
is_i64 (pos n) = ltb n (2 ^ 63)
is_i64 (negsuc n) = ltb n (2 ^ 63)

abbrev result_some : {A E : Type 0} → Result A E → Option A
result_some (ok a) = some a
result_some (err e) = none

-- `untagged`: the first variant that can be read
abbrev pub first_of : {A : Type 0} → Option A → Option A → Option A
first_of (some a) other = some a
first_of none other = other

-- `default`
abbrev pub or_default : {V A : Type 0} → A → (V → Option A) → Option V → Option A
or_default a read none = some a
or_default a read (some v) = read v

-- An explicit null is a value here, not a field that is left out.
unfoldable pub deserialize_some : {V A : Type 0} → (V → Option A) → V → Option (Option A)
deserialize_some read v = Option.map some (read v)

module _ (serde : SerdeJson) where
  open serde use {Value, Float, shape, parse}

  abbrev integer_of : Shape Value Float → Option ℤ
  integer_of (integer n) = if is_i64 n then some n else none
  integer_of _ = none

  abbrev pub text_of : Shape Value Float → Option String
  text_of (text s) = some s
  text_of _ = none

  abbrev id_of : Shape Value Float → Option RequestId
  id_of (integer n) = if is_i64 n then some (RequestId.number n) else none
  id_of (text s) = some (RequestId.string s)
  id_of Shape.null = some RequestId.null
  id_of _ = none

  unfoldable pub deserialize_i64 : Value → Option ℤ
  deserialize_i64 v = integer_of (shape v)

  unfoldable pub deserialize_string : Value → Option String
  deserialize_string v = text_of (shape v)

  unfoldable pub deserialize_id : Value → Option RequestId
  deserialize_id v = id_of (shape v)

  unfoldable pub check_version : Value → Option Version
  unfolding deserialize_string deserialize_version
  check_version v = do ver ← deserialize_string v; result_some (deserialize_version ver)

  unfoldable pub deserialize_code : Value → Option ErrorCode
  unfolding deserialize_i64 from_i64
  deserialize_code v = Option.map from_i64 (deserialize_i64 v)

  abbrev present : Shape Value Float → Value → Option Value
  present Shape.null v = none
  present _ v = some v

  -- An `Option` of a value: a null is `None`, like a field that is left out.
  unfoldable pub deserialize_option : Option Value → Option Value
  deserialize_option none = none
  deserialize_option (some v) = present (shape v) v

  unfoldable pub error_of_fields : Option Value → Option Value → Option Value → Option (Error Value)
  unfolding deserialize_code deserialize_string deserialize_option
  error_of_fields code message payload = do
    c ← code
    m ← message
    code ← deserialize_code c
    message ← deserialize_string m
    some (record { code = code; message = message; payload = deserialize_option payload })

  unfoldable pub error_of_members : List (String × Value) → Option (Error Value)
  unfolding are_known member error_of_fields
  error_of_members members = do
    code ← member "code" members
    message ← member "message" members
    payload ← member "data" members
    if are_known ("code" ∷ "message" ∷ "data" ∷ []) members
        then error_of_fields code message payload
        else none

  -- A derived struct can be read from an array of its fields as well.
  unfoldable pub error_of_items : List Value → Option (Error Value)
  unfolding error_of_fields
  error_of_items (c ∷ m ∷ d ∷ []) = error_of_fields (some c) (some m) (some d)
  error_of_items _ = none

  abbrev error_of : Shape Value Float → Option (Error Value)
  unfolding error_of_members error_of_items
  error_of (object members) = error_of_members members
  error_of (array items) = error_of_items items
  error_of _ = none

  unfoldable pub deserialize_error : Value → Option (Error Value)
  unfolding error_of_members error_of_items
  deserialize_error v = error_of (shape v)

  unfoldable pub request_of_fields :
      Option Value → Option Value → Option Value → Option Value → Option (Request Value)
  unfolding check_version deserialize_string deserialize_some deserialize_id
  request_of_fields jsonrpc method params id = do
    j ← jsonrpc
    _ ← check_version j
    method ← or_default "" deserialize_string method
    params ← or_default none (deserialize_some some) params
    id ← or_default none (deserialize_some deserialize_id) id
    some (record { method = method; params = params; id = id })

  unfoldable pub request_of_members : List (String × Value) → Option (Request Value)
  unfolding member request_of_fields
  request_of_members members = do
    jsonrpc ← member "jsonrpc" members
    method ← member "method" members
    params ← member "params" members
    id ← member "id" members
    request_of_fields jsonrpc method params id

  unfoldable pub request_of_items : List Value → Option (Request Value)
  unfolding request_of_fields
  request_of_items items =
      if ltb 4 (length items)
      then none
      else request_of_fields (get_elem? items 0) (get_elem? items 1) (get_elem? items 2)
          (get_elem? items 3)

  abbrev request_of : Shape Value Float → Option (Request Value)
  unfolding request_of_members request_of_items
  request_of (object members) = request_of_members members
  request_of (array items) = request_of_items items
  request_of _ = none

  unfoldable pub deserialize_request : Value → Option (Request Value)
  unfolding request_of_members request_of_items
  deserialize_request v = request_of (shape v)

  unfoldable pub deserialize_ok : List (String × Value) → Option (Kind Value)
  unfolding member
  deserialize_ok members = do field ← member "result" members; result ← field; some (ok_kind result)

  unfoldable pub deserialize_err : List (String × Value) → Option (Kind Value)
  unfolding member deserialize_error
  deserialize_err members = do
    field ← member "error" members
    v ← field
    error ← deserialize_error v
    some (err_kind error)

  unfoldable pub deserialize_kind : List (String × Value) → Option (Kind Value)
  unfolding deserialize_ok deserialize_err
  deserialize_kind members = first_of (deserialize_ok members) (deserialize_err members)

  unfoldable pub response_of_members : List (String × Value) → Option (Response Value)
  unfolding member check_version deserialize_id unclaimed deserialize_kind
  response_of_members members = do
    jsonrpc ← member "jsonrpc" members
    id ← member "id" members
    j ← jsonrpc
    _ ← check_version j
    i ← id
    id ← deserialize_id i
    kind ← deserialize_kind (unclaimed ("jsonrpc" ∷ "id" ∷ []) members)
    some (record { kind = kind; id = id })

  -- A struct with a flattened field is read from an object only.
  abbrev response_of : Shape Value Float → Option (Response Value)
  unfolding response_of_members
  response_of (object members) = response_of_members members
  response_of _ = none

  unfoldable pub deserialize_response : Value → Option (Response Value)
  unfolding response_of_members
  deserialize_response v = response_of (shape v)

  unfoldable pub deserialize_message : Value → Option (Message Value)
  unfolding deserialize_response deserialize_request
  deserialize_message v =
      first_of (Option.map response (deserialize_response v))
        (Option.map request (deserialize_request v))

  -- The `FromStr` instances of requests and responses.
  unfoldable pub request_from_str : List ℕ → Option (Request Value)
  unfolding deserialize_request
  request_from_str s = do v ← parse s; deserialize_request v

  unfoldable pub response_from_str : List ℕ → Option (Response Value)
  unfolding deserialize_response
  response_from_str s = do v ← parse s; deserialize_response v
