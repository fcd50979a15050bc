-- ===== src/JsonRpc/Tests.antt =====
-- The theorems of the JSON-RPC types at concrete values.
use tower_lsp.Base.{ℕ, String, ◌≡◌, refl, true, List, [], ◌∷◌, none, some, ok, String_eq}
use tower_lsp.JsonRpc.RequestId.{RequestId}
use tower_lsp.Base.Int.{pos, negsuc}
use tower_lsp.JsonRpc.Error.{server_error, neg, code, from_i64}
use tower_lsp.JsonRpc.Error.Codes.{from_i64-code}
use tower_lsp.JsonRpc.Response.{err_kind}
use tower_lsp.JsonRpc.Message.{Message, response, request}
use tower_lsp.JsonRpc.Document.{array, object, SerdeJson}
use tower_lsp.JsonRpc.Documents.{Tree, nothing, flag, whole, word, make, documents}
use tower_lsp.JsonRpc.Serialize.{serialize_message}
use tower_lsp.JsonRpc.Deserialize.{deserialize_message, deserialize_response, deserialize_request}
use tower_lsp.JsonRpc.Deserialize.Valid.{IsValid}
use tower_lsp.JsonRpc.Deserialize.RoundTrip.{
  deserialize_message-serialize_message, deserialize_message_again,
}
use tower_lsp.JsonRpc.Request.{Request}
use tower_lsp.JsonRpc.Router.{Router, MethodHandler, unit_response}

-- A notification handler, and a request that meets it.
abbrev notified : MethodHandler String (Unit {0}) ℕ (Unit {0})
notified = record {
  params = record { from_params = λ p. ok tt };
  response = unit_response;
  f = λ p. 7;
}

abbrev asked : Request String
asked = record { method = "notify"; params = none; id = some RequestId.null }

abbrev taken : Router (Unit {0}) ℕ
taken = record { server = tt; methods = ("exit", 1) ∷ [] }

abbrev serde : SerdeJson
serde = documents nothing

abbrev refused : Message Tree
refused = response (record {
  kind = err_kind (record {
    code = server_error (neg 32002);
    message = "Server not initialized";
    payload = some (flag true);
  });
  id = RequestId.number (negsuc 6);
})

refused-IsValid : IsValid serde refused
unfolding code from_i64
refused-IsValid = (
  record {
    in_range = refl;
    canonical = (from_i64-code (server_error (neg 32002))).0 refl;
    filled = λ v e n. cc;
  },
  refl,
)

deserialize_message-serialize_message_example :
    deserialize_message serde (serialize_message serde refused) ≡ some refused
deserialize_message-serialize_message_example =
    deserialize_message-serialize_message serde refused refused-IsValid

-- A request as an array, with a null for its parameters.
abbrev listed : Tree
listed = make (array (word "2.0" ∷ word "shutdown" ∷ nothing ∷ whole (pos 3) ∷ []))

abbrev shutdown : Message Tree
shutdown =
    request
      (record { method = "shutdown"; params = some nothing; id = some (RequestId.number (pos 3)) })

deserialize_message_again_example :
    deserialize_message serde (serialize_message serde shutdown) ≡ some shutdown
unfolding deserialize_message deserialize_response deserialize_request
deserialize_message_again_example = deserialize_message_again serde listed refl

abbrev first : List (String × Tree)
first = ("method", word "exit") ∷ ("jsonrpc", word "2.0") ∷ []

abbrev second : List (String × Tree)
second = ("jsonrpc", word "2.0") ∷ ("method", word "exit") ∷ []

read_first :
    deserialize_message serde (make (object first))
    ≡ some (request (record { method = "exit"; params = none; id = none }))
unfolding deserialize_message deserialize_response deserialize_request
read_first = refl

-- Without a method, a request has an empty one; a wrong version is refused.
read_empty :
    deserialize_message serde (make (object (("jsonrpc", word "2.0") ∷ [])))
    ≡ some (request (record { method = ""; params = none; id = none }))
unfolding deserialize_message deserialize_response deserialize_request
read_empty = refl

read_wrong : deserialize_message serde (make (object (("jsonrpc", word "1.0") ∷ []))) ≡ none
unfolding deserialize_message deserialize_response deserialize_request
read_wrong = refl
