-- ===== src/JsonRpc/Deserialize/RoundTrip.antt =====
-- Messages that are written as JSON and read again: the serde instances of src/jsonrpc.rs,
-- src/jsonrpc/request.rs, src/jsonrpc/response.rs and src/jsonrpc/error.rs.

use tower_lsp.Base.{◌≡◌, refl, ◌∷◌, [], List, String, none, some, String_eq}
use tower_lsp.Base.Ensures.{Ensures-bind, Ensures_some, none_of_Ensures}
use tower_lsp.JsonRpc.Response.{Response}
use tower_lsp.JsonRpc.Message.{Message, response, request}
use tower_lsp.JsonRpc.Document.{object, SerdeJson}
use tower_lsp.JsonRpc.Members.{member, unclaimed}
use tower_lsp.JsonRpc.Deserialize.{
  deserialize_request, deserialize_kind, response_of_members, deserialize_response,
  deserialize_message, check_version, deserialize_id,
}
use tower_lsp.JsonRpc.Deserialize.Valid.{IsValid, deserialize_message-IsValid}
use tower_lsp.JsonRpc.Deserialize.Written.{
  deserialize_response-serialize_response, request_round, no_response,
}
use tower_lsp.JsonRpc.Serialize.{request_members, serialize_request, serialize_message}

module _ (serde : SerdeJson) where
  open serde use {Value, shape-make}

  no_kind :
      (members : List (String × Value))
      → deserialize_kind serde (unclaimed ("jsonrpc" ∷ "id" ∷ []) members) ≡ none
      → response_of_members serde members ≡ none
  unfolding response_of_members
  no_kind members e =
      let P = λ (r : Response Value). ⊥ in
      none_of_Ensures _ (
        Ensures-bind P (member "jsonrpc" members) _ (λ j _.
          Ensures-bind P (member "id" members) _ (λ i _. Ensures-bind P j _ (λ v _.
            Ensures-bind P (check_version serde v) _ (λ u _. Ensures-bind P i _ (λ w _.
              Ensures-bind P (deserialize_id serde w) _ (λ id _.
                Ensures-bind P (deserialize_kind serde (unclaimed ("jsonrpc" ∷ "id" ∷ []) members))
                  _ (λ k here. absurd (cc)))))))))

  -- A message that is written as JSON is read again as it was: a response as a response, never as
  -- a request, and a request as a request, with each part that is there or left out. Of the
  -- message this asks that the numbers of its identifier and of its error are those of an i64,
  -- that its error is no server error under the number of a named code, and that the data of its
  -- error is no explicit null.
  pub deserialize_message-serialize_message :
      (m : Message Value)
      → IsValid serde m
      → deserialize_message serde (serialize_message serde m) ≡ some m
  unfolding deserialize_message serialize_message deserialize_request serialize_request
      deserialize_response
  deserialize_message-serialize_message (response r) v =
      rw (deserialize_response-serialize_response serde r v.0 v.1) refl
  deserialize_message-serialize_message (request r) v =
      rw
        (
          shape-make (object (request_members serde r)),
          no_kind (request_members serde r) (no_response serde r.method r.params r.id),
          request_round serde r.method r.params r.id v,
        )
        refl

  -- Every message that can be read, from whatever document, an array of fields, an object with
  -- unknown members or an error with a null for its data included, is written in a form that is
  -- read as the same message.
  pub deserialize_message_again :
      (v : Value) {m : Message Value}
      → deserialize_message serde v ≡ some m
      → deserialize_message serde (serialize_message serde m) ≡ some m
  deserialize_message_again v {m} e =
      deserialize_message-serialize_message m
        (Ensures_some (IsValid serde) _ (deserialize_message-IsValid serde v) e)
