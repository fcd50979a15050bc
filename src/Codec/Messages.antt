-- ===== src/Codec/Messages.antt =====
-- The codec with the messages of src/jsonrpc.rs: src/codec.rs.

use tower_lsp.Base.{
  ℕ, ◌<◌, ◌≡◌, ◌≢◌, refl, Bool, true, false, List, [], ◌∷◌, ◌++◌, Option, none, some, length, All,
  map, Result, ok, err,
}
use tower_lsp.JsonRpc.Message.{Message}
use tower_lsp.JsonRpc.Document.{SerdeJson}
use tower_lsp.JsonRpc.Serialize.{serialize_message}
use tower_lsp.JsonRpc.Deserialize.{deserialize_message}
use tower_lsp.JsonRpc.Deserialize.Valid.{IsValid}
use tower_lsp.JsonRpc.Deserialize.RoundTrip.{deserialize_message-serialize_message}
use tower_lsp.Codec.Utf8.{from_utf8}
use tower_lsp.Codec.Decimal.{usize_mod}
use tower_lsp.Codec.Wire.{Wire, Status, HeadersError}
use tower_lsp.Codec.Decode.{default}
use tower_lsp.Codec.Encode.RoundTrip.{ParsesFrame}
use tower_lsp.Codec.Stream.{IsReadable, encode_all, decode_times, decode_times-encode_all}

-- The categories of the errors of serde_json: of a text that is no JSON, and of JSON that is not what
-- it is read as.
pub data JsonError : Type 0 where
  syntax data_mismatch : JsonError

unfoldable pub is_data : JsonError → Bool
is_data syntax = false
is_data data_mismatch = true

abbrev or_error : {A : Type 0} → JsonError → Option A → Result A JsonError
or_error e none = err e
or_error e (some a) = ok a

module _ (serde : SerdeJson) where
  open serde use {Value, parse, print}

  abbrev read_document : Option Value → Result (Message Value) JsonError
  unfolding deserialize_message
  read_document none = err syntax
  read_document (some v) = or_error data_mismatch (deserialize_message serde v)

  -- `serde_json::from_str`, for messages
  unfoldable pub read_text : List ℕ → Result (Message Value) JsonError
  unfolding deserialize_message
  read_text text = read_document (parse text)

  -- `serde_json::to_string`, for messages
  unfoldable pub write_text : Message Value → List ℕ
  unfolding serialize_message
  write_text m = print (serialize_message serde m)

  module _ (parse_headers : List ℕ → Result Status HeadersError)
      (find : List ℕ → List ℕ → Option ℕ) where
    abbrev pub message_wire : Wire (Message Value) JsonError
    message_wire = record {
      parse_headers = parse_headers;
      find = find;
      from_str = read_text;
      to_string = λ m. ok (write_text m);
    }

    -- What serde_json and httparse do with the document of a message, whatever stands behind it.
    pub record IsSent (m : Message Value) : Type 0 where
      pub text : List ℕ
      pub valid : IsValid serde m
      pub is_text : from_utf8 (print (serialize_message serde m)) ≡ ok text
      pub parsed : parse text ≡ some (serialize_message serde m)
      pub filled : text ≢ []
      pub bound : length (print (serialize_message serde m)) < usize_mod
      pub framed :
          (rest : List ℕ)
          → ParsesFrame message_wire
              (length (print (serialize_message serde m)))
              (print (serialize_message serde m) ++ rest)

    IsSent-IsReadable : {m : Message Value} → IsSent m → IsReadable message_wire m
    unfolding read_text write_text
    IsSent-IsReadable {m} h = record {
      msg = print (serialize_message serde m);
      text = h.text;
      printed = refl;
      valid = h.is_text;
      parsed = rw (h.parsed, deserialize_message-serialize_message serde m h.valid) refl;
      filled = h.filled;
      bound = h.bound;
      framed = h.framed;
    }

    all-IsReadable : (ms : List (Message Value)) → All IsSent ms → All (IsReadable message_wire) ms
    all-IsReadable [] h = tt
    all-IsReadable (m ∷ ms) (h, hs) = (IsSent-IsReadable h, all-IsReadable ms hs)

    -- JSON-RPC messages that are encoded behind one another, with anything behind them in the
    -- buffer, come out of as many calls of `decode` of a new codec, the same ones in the same
    -- order; the rest stays in the buffer and the codec is as new. Of each message this asks that
    -- it can be read from the document that it is written as, that serde_json parses the document
    -- that it printed, that this is a text of less than 2^64 bytes and not empty, and that
    -- httparse reads the header that was written.
    pub decode_times-messages :
        (ms : List (Message Value)) (buf rest : List ℕ)
        → All IsSent ms
        → encode_all message_wire ms [] ≡ ok buf
        → decode_times message_wire (length ms) default (buf ++ rest)
          ≡ some (map (λ m. ok (some m)) ms, default, rest)
    decode_times-messages ms buf rest hs e =
        decode_times-encode_all message_wire ms buf rest (all-IsReadable ms hs) e
