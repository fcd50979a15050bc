-- ===== src/JsonRpc/Deserialize/Written.antt =====
-- The parts of a message that are written as JSON and read again: the serde instances of src/jsonrpc.rs,
-- src/jsonrpc/request.rs, src/jsonrpc/response.rs and src/jsonrpc/error.rs.

use tower_lsp.Base.{◌≡◌, ◌≢◌, refl, true, ◌∷◌, [], Option, none, some, String, String_eq, ◌∙◌}
use tower_lsp.JsonRpc.RequestId.{RequestId, version}
use tower_lsp.JsonRpc.Error.{ErrorCode, Error, code}
use tower_lsp.JsonRpc.Error.Codes.{IsCanonical, from_i64-code}
use tower_lsp.JsonRpc.Request.{Request}
use tower_lsp.JsonRpc.Response.{Kind, ok_kind, err_kind, Response}
use tower_lsp.JsonRpc.Document.{Shape, integer, text, object, boolean, float, array, SerdeJson}
use tower_lsp.JsonRpc.Members.{member, skip_none, unclaimed, are_known}
use tower_lsp.JsonRpc.Deserialize.{
  is_i64, present, deserialize_some, deserialize_i64, deserialize_string, deserialize_id,
  check_version, deserialize_code, deserialize_option, error_of_fields, error_of_members,
  deserialize_error, request_of_fields, request_of_members, deserialize_ok, deserialize_err,
  deserialize_kind, response_of_members, deserialize_response,
}
use tower_lsp.JsonRpc.Deserialize.Valid.{IsValidId, IsValidError, IsValidKind, IsValidOption}
use tower_lsp.JsonRpc.Serialize.{
  serialize_id, version_document, serialize_code, serialize_error, request_members, kind_members,
  response_members, serialize_response,
}

module _ (serde : SerdeJson) where
  open serde use {Value, make, shape, shape-make}

  deserialize_id-serialize_id :
      (id : RequestId) → IsValidId id → deserialize_id serde (serialize_id serde id) ≡ some id
  unfolding deserialize_id serialize_id
  deserialize_id-serialize_id (RequestId.number n) v = rw (shape-make (integer n), v) refl
  deserialize_id-serialize_id (RequestId.string s) v = rw (shape-make (text s)) refl
  deserialize_id-serialize_id RequestId.null v = rw (shape-make Shape.null) refl

  check_version_lem : check_version serde (version_document serde) ≡ some version
  unfolding check_version version_document
  check_version_lem = rw (shape-make (text "2.0")) refl

  present_lem :
      (s : Shape Value serde.Float) (v : Value) → s ≢ Shape.null → present serde s v ≡ some v
  present_lem Shape.null v h = absurd (h refl)
  present_lem (boolean b) v h = refl
  present_lem (integer n) v h = refl
  present_lem (float f) v h = refl
  present_lem (text s) v h = refl
  present_lem (array vs) v h = refl
  present_lem (object ms) v h = refl

  error_fields :
      (c : ErrorCode) (m : String) (p : Option Value)
      → is_i64 (code c) ≡ true
      → IsCanonical c
      → error_of_fields serde (some (serialize_code serde c)) (some (make (text m))) p
        ≡ some (record { code = c; message = m; payload = deserialize_option serde p })
  unfolding error_of_fields deserialize_code deserialize_i64 deserialize_string serialize_code
  error_fields c m p v canonical =
      rw (shape-make (integer (code c)), v, shape-make (text m), (from_i64-code c).1 canonical) refl

  error_round :
      (c : ErrorCode) (m : String) (p : Option Value)
      → let e : Error Value = record { code = c; message = m; payload = p } in
        IsValidError serde e → deserialize_error serde (serialize_error serde e) ≡ some e
  unfolding deserialize_error serialize_error error_of_members member are_known skip_none
      deserialize_option
  error_round c m none v =
      rw (shape-make (object (("code", serialize_code serde c) ∷ ("message", make (text m)) ∷ [])))
        (error_fields c m none v.in_range v.canonical)
  error_round c m (some p) v =
      rw
        (shape-make (
          object
            (("code", serialize_code serde c) ∷ ("message", make (text m)) ∷ ("data", p) ∷ [])))
        (error_fields c m (some p) v.in_range v.canonical
          ∙ rw (present_lem (shape p) p (v.filled p refl)) refl)

  kind_round :
      (k : Kind Value)
      → IsValidKind serde k
      → deserialize_kind serde (kind_members serde k) ≡ some k
  unfolding deserialize_kind deserialize_ok deserialize_err kind_members member
  kind_round (ok_kind result) v = refl
  kind_round (err_kind error) v = rw (error_round error.code error.message error.payload v) refl

  response_parts :
      (k : Kind Value) (id : RequestId)
      → let members = response_members serde (record { kind = k; id = id }) in
        (member "jsonrpc" members ≡ some (some (version_document serde)))
        × (member "id" members ≡ some (some (serialize_id serde id)))
        × (unclaimed ("jsonrpc" ∷ "id" ∷ []) members ≡ kind_members serde k)
  unfolding response_members kind_members member unclaimed
  response_parts (ok_kind result) id = (refl, refl, refl)
  response_parts (err_kind error) id = (refl, refl, refl)

  pub deserialize_response-serialize_response :
      (r : Response Value)
      → IsValidKind serde r.kind
      → IsValidId r.id
      → deserialize_response serde (serialize_response serde r) ≡ some r
  unfolding deserialize_response serialize_response response_of_members
  deserialize_response-serialize_response r v w =
      let (j, i, rest) = response_parts r.kind r.id in
      rw
        (
          shape-make (object (response_members serde r)),
          j,
          i,
          check_version_lem,
          deserialize_id-serialize_id r.id w,
          rest,
          kind_round r.kind v,
        )
        refl

  pub request_round :
      (method : String) (params : Option Value) (id : Option RequestId)
      → IsValidOption id
      → let r : Request Value = record { method = method; params = params; id = id } in
        request_of_members serde (request_members serde r) ≡ some r
  unfolding request_of_members request_of_fields request_members member skip_none deserialize_some
      deserialize_string
  request_round method none none v = rw (check_version_lem, shape-make (text method)) refl
  request_round method (some p) none v = rw (check_version_lem, shape-make (text method)) refl
  request_round method none (some id) v =
      rw (check_version_lem, shape-make (text method), deserialize_id-serialize_id id v) refl
  request_round method (some p) (some id) v =
      rw (check_version_lem, shape-make (text method), deserialize_id-serialize_id id v) refl

  -- A request has no member that a response is made of.
  pub no_response :
      (method : String) (params : Option Value) (id : Option RequestId)
      → let r : Request Value = record { method = method; params = params; id = id } in
        deserialize_kind serde (unclaimed ("jsonrpc" ∷ "id" ∷ []) (request_members serde r)) ≡ none
  unfolding deserialize_kind deserialize_ok deserialize_err request_members member unclaimed
      skip_none
  no_response method none none = refl
  no_response method (some p) none = refl
  no_response method none (some id) = refl
  no_response method (some p) (some id) = refl
