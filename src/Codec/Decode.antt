-- ===== src/Codec/Decode.antt =====
-- The decoder: src/codec.rs. `none` is a panic of `BytesMut::advance`.
pub mod Total
pub mod Progress
pub mod Stuck
pub mod Errors
use tower_lsp.Base.{
  ℕ, List, [], ◌∷◌, Option, none, some, if◌then◌else◌, ltb, length, take, drop, Result, ok, err,
}
use tower_lsp.Base.Options.{◌>>=◌}
use tower_lsp.Base.Text.{codes}
use tower_lsp.Codec.Utf8.{from_utf8}
use tower_lsp.Codec.Headers.{
  ParseError, body, headers, missing_content_length, utf8, Header, decode_headers,
}
use tower_lsp.Codec.Wire.{Wire, Status, complete, partial, HeadersError}

-- `LanguageServerCodec`
pub record Codec : Type 0 where
  pub content_len : Option ℕ

unfoldable pub default : Codec
default = record { content_len = none }

-- What a call of `decode` leaves behind: the codec, the buffer, and the result.
pub record Decoded (T J : Type 0) : Type 0 where
  pub codec : Codec
  pub src : List ℕ
  pub result : Result (Option T) (ParseError J)

-- `BytesMut::advance`
unfoldable pub advance : ℕ → List ℕ → Option (List ℕ)
advance n src = if ltb (length src) n then none else some (drop n src)

module _ {T J : Type 0} (wire : Wire T J) where
  unfoldable pub parse_message : List ℕ → Result (Option T) (ParseError J)
  parse_message [] = ok none
  parse_message (c ∷ cs) = elim (wire.from_str (c ∷ cs)) [
    | ok parsed ↦ ok (some parsed)
    | err e ↦ err (body e)
  ]

  abbrev left_over : Option ℕ → List ℕ → Result (Option T) (ParseError J) → Option (Decoded T J)
  left_over len src result =
      some (record { codec = record { content_len = len }; src = src; result = result })

  unfoldable pub read_message : ℕ → List ℕ → Option (Decoded T J)
  unfolding advance parse_message
  read_message content_len src = elim (from_utf8 (take content_len src)) [
    | err e ↦ left_over (some content_len) src (err (utf8 e))
    | ok message ↦ do src' ← advance content_len src; left_over none src' (parse_message message)
  ]

  -- The branch for a length that is known.
  unfoldable pub decode_body : ℕ → List ℕ → Option (Decoded T J)
  unfolding read_message
  decode_body content_len src =
      if ltb (length src) content_len
      then left_over (some content_len) src (ok none)
      else read_message content_len src

  unfoldable pub skip_headers : ParseError J → ℕ → List ℕ → Option (List ℕ)
  unfolding advance
  skip_headers missing_content_length headers_len src = some src
  skip_headers _ headers_len src = advance headers_len src

  unfoldable pub skip_garbage : List ℕ → Option (List ℕ)
  unfolding advance
  skip_garbage src = elim (wire.find src (codes "Content-Length")) [
    | none ↦ advance 0 src
    | some k ↦ advance k src
  ]

  unfoldable pub decode_status : List ℕ → Result Status HeadersError → Option (Decoded T J)
  unfolding advance decode_body skip_headers skip_garbage
  decode_status src (err e) = left_over none src (err headers)
  decode_status src (ok partial) = left_over none src (ok none)
  decode_status src (ok (complete headers_len hs)) = elim (decode_headers hs) [
    | ok content_len ↦ do src' ← advance headers_len src; decode_body content_len src'
    | err e ↦ do
      src' ← skip_headers e headers_len src
      src'' ← skip_garbage src'
      left_over none src'' (err e)
  ]

  unfoldable pub decode_for : Option ℕ → List ℕ → Option (Decoded T J)
  unfolding decode_body decode_status
  decode_for (some content_len) src = decode_body content_len src
  decode_for none src = decode_status src (wire.parse_headers src)

  unfoldable pub decode : Codec → List ℕ → Option (Decoded T J)
  unfolding decode_for
  decode codec src = decode_for codec.content_len src
