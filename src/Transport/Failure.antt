-- ===== src/Transport/Failure.antt =====
-- What the server says of errors: src/transport.rs, and the texts of `ParseError` in src/codec.rs.
use Prim.Native.String.{◌++◌}
use tower_lsp.Base.{String, Bool, Option, none, some, if◌then◌else◌}
use tower_lsp.JsonRpc.Error.{Error, invalid_request_object, parse_error_object}
use tower_lsp.Codec.Headers.{
  ParseError, body, encode, headers, invalid_content_type, missing_content_length,
  invalid_content_length, utf8,
}
use tower_lsp.Codec.Decimal.{ParseIntError}
use tower_lsp.Codec.Utf8.{Utf8Error}

-- `to_jsonrpc_error`; `is_data` is the question of serde_json whether a JSON text was well-formed.
unfoldable pub to_jsonrpc_error : {Value J : Type 0} → (J → Bool) → ParseError J → Error Value
to_jsonrpc_error is_data (body e) = if is_data e then invalid_request_object else parse_error_object
to_jsonrpc_error is_data _ = parse_error_object

-- An error with its text and the errors behind it.
pub data Chain : Type 0 where
  last : String → Chain
  caused : String → Chain → Chain

unfoldable pub display_sources : Chain → String
display_sources (last text) = text
display_sources (caused text source) = (text ++ ": ") ++ display_sources source

-- The texts of the errors of the libraries.
pub record Texts (J : Type 0) : Type 0 where
  pub json : J → String
  pub io : String
  pub http : String
  pub int : ParseIntError → String
  pub utf : Utf8Error → String

module _ {J : Type 0} (texts : Texts J) where
  unfoldable pub display : ParseError J → String
  display (body e) = "unable to parse JSON body: " ++ texts.json e
  display encode = "failed to encode response: " ++ texts.io
  display headers = "failed to parse headers: " ++ texts.http
  display invalid_content_type = "unable to parse content type"
  display (invalid_content_length e) = "unable to parse content length: " ++ texts.int e
  display missing_content_length = "missing required `Content-Length` header"
  display (utf8 e) = "request contains invalid UTF8: " ++ texts.utf e

  -- The error behind a `ParseError`, by its text.
  unfoldable pub source : ParseError J → Option String
  source (body e) = some (texts.json e)
  source encode = some texts.io
  source (invalid_content_length e) = some (texts.int e)
  source (utf8 e) = some (texts.utf e)
  source _ = none
