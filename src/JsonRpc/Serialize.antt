-- ===== src/JsonRpc/Serialize.antt =====
-- How messages are written as JSON: the `Serialize` instances of src/jsonrpc.rs,
-- src/jsonrpc/request.rs, src/jsonrpc/response.rs and src/jsonrpc/error.rs.
use mathlib.Core.Option
use tower_lsp.Base.{ℕ, Result, String, List, [], ◌∷◌, ◌++◌}
use tower_lsp.JsonRpc.RequestId.{RequestId, version, serialize_version}
use tower_lsp.JsonRpc.Error.{ErrorCode, Error, code}
use tower_lsp.JsonRpc.Request.{Request}
use tower_lsp.JsonRpc.Response.{Kind, ok_kind, err_kind, Response}
use tower_lsp.JsonRpc.Message.{Message, response, request}
use tower_lsp.Codec.Utf8.{Utf8Error, from_utf8}
use tower_lsp.JsonRpc.Document.{Shape, integer, text, object, SerdeJson}
use tower_lsp.JsonRpc.Members.{skip_none}

module _ (serde : SerdeJson) where
  open serde use {Value, make, print}

  unfoldable pub serialize_id : RequestId → Value
  serialize_id (RequestId.number n) = make (integer n)
  serialize_id (RequestId.string s) = make (text s)
  serialize_id RequestId.null = make Shape.null

  unfoldable pub version_document : Value
  unfolding serialize_version
  version_document = make (text (serialize_version version))

  unfoldable pub serialize_code : ErrorCode → Value
  unfolding code
  serialize_code c = make (integer (code c))

  unfoldable pub serialize_error : Error Value → Value
  unfolding serialize_code skip_none
  serialize_error e = make (
      object (
        ("code", serialize_code e.code)
        ∷ ("message", make (text e.message))
        ∷ skip_none "data" e.payload))

  unfoldable pub request_members : Request Value → List (String × Value)
  unfolding version_document skip_none serialize_id
  request_members r =
      ("jsonrpc", version_document)
      ∷ ("method", make (text r.method))
      ∷ (skip_none "params" r.params ++ skip_none "id" (Option.map serialize_id r.id))

  unfoldable pub serialize_request : Request Value → Value
  unfolding request_members
  serialize_request r = make (object (request_members r))

  unfoldable pub kind_members : Kind Value → List (String × Value)
  unfolding serialize_error
  kind_members (ok_kind result) = ("result", result) ∷ []
  kind_members (err_kind error) = ("error", serialize_error error) ∷ []

  unfoldable pub response_members : Response Value → List (String × Value)
  unfolding version_document kind_members serialize_id
  response_members r =
      ("jsonrpc", version_document) ∷ (kind_members r.kind ++ ("id", serialize_id r.id) ∷ [])

  unfoldable pub serialize_response : Response Value → Value
  unfolding response_members
  serialize_response r = make (object (response_members r))

  unfoldable pub serialize_message : Message Value → Value
  unfolding serialize_request serialize_response
  serialize_message (response r) = serialize_response r
  serialize_message (request r) = serialize_request r

  -- The `Display` instance of requests: what serde_json writes has to be UTF-8.
  unfoldable pub display_request : Request Value → Result (List ℕ) Utf8Error
  unfolding serialize_request
  display_request r = from_utf8 (print (serialize_request r))
