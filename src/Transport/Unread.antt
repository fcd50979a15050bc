-- ===== src/Transport/Unread.antt =====
-- Messages that cannot be read, from the codec of src/codec.rs to the answer of src/transport.rs.

use tower_lsp.Base.{
  ℕ, String, Bool, not, ◌&&◌, ◌||◌, if◌then◌else◌, ◌≡◌, refl, List, [], ◌∷◌, ◌++◌, Option, none,
  some, Result,
}
use tower_lsp.JsonRpc.RequestId.{null}
use tower_lsp.JsonRpc.Json.{Json}
use tower_lsp.JsonRpc.Error.{Error, invalid_request_object, parse_error_object}
use tower_lsp.JsonRpc.Response.{Response, from_error}
use tower_lsp.JsonRpc.Router.{Router}
use tower_lsp.JsonRpc.Document.{text, SerdeJson}
use tower_lsp.JsonRpc.Deserialize.{text_of, deserialize_message}
use tower_lsp.Service.Abort.{AbortApi}
use tower_lsp.Service.Lsp.{BoxService}
use tower_lsp.Client.Oneshot.{OneshotApi}
use tower_lsp.Codec.Wire.{Status, HeadersError}
use tower_lsp.Codec.Messages.{JsonError, is_data}
use tower_lsp.Transport.Connection.{Connection, Reader, reading, ended}

pub as_string-from_string :
    (serde : SerdeJson) (s : String) → text_of serde (serde.shape (serde.make (text s))) ≡ some s
as_string-from_string serde s = rw (serde.shape-make (text s)) refl

-- The values of a service whose documents these are.
abbrev pub json_of : (serde : SerdeJson) → (serde.Value → String) → Json
json_of serde display = record {
  Value = serde.Value;
  from_string = λ s. serde.make (text s);
  as_string = λ v. text_of serde (serde.shape v);
  display = display;
  as_string-from_string = as_string-from_string serde;
}

-- Why a text is no message, with the error that the server answers.
pub data Unread (serde : SerdeJson) (s : List ℕ) (e : Error serde.Value) : Type 0 where
  no_json : serde.parse s ≡ none → e ≡ parse_error_object → Unread serde s e
  no_message :
      (v : serde.Value)
      → serde.parse s ≡ some v
      → deserialize_message serde v ≡ none
      → e ≡ invalid_request_object
      → Unread serde s e

-- With serde_json, and either kind of stream.
abbrev pub reader_of : Bool → Reader JsonError
reader_of ends = record { is_data = is_data; ends_with_error = ends }

module _ (serde : SerdeJson) where
  open serde use {Value}

  module _ (parse_headers : List ℕ → Result Status HeadersError) (find : List ℕ → List ℕ → Option ℕ)
      (display : Value → String) {api : AbortApi} {channels : OneshotApi (Response Value)}
      {S P B R : Type 0} (router : Router S (BoxService Value P B R)) (max : ℕ) (ends : Bool) where
    -- The answer is written; the loop ends and disconnects, or reads on.
    abbrev pub IsAnsweredBy :
        Bool → Error Value → Connection api channels B R → Connection api channels B R → Type 0
    IsAnsweredBy ends e k k' =
        (k'.output ≡ k.output ++ from_error null e ∷ [])
        × (k'.read_input ≡ (if ends then ended else reading))
        × (k'.tasks_open ≡ (not ends && k.tasks_open))
        × (k'.responses_open ≡ (not ends && k.responses_open))
        × (k'.requests_aborted ≡ (ends || k.requests_aborted))
