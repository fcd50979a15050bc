-- ===== src/Codec/Decode/Errors.antt =====
-- Errors that the decoder does not get past: src/codec.rs.
use tower_lsp.Base.{
  ℕ, ◌≤◌, ◌≡◌, refl, false, List, ◌++◌, none, some, arith, ltb, length, take, length-append,
  take-append_of_le, take-append_length, ◌≢◌, ◌∷◌, [], ok, err,
}
use tower_lsp.Base.Text.{codes}
use tower_lsp.Codec.Utf8.{Utf8Error, from_utf8}
use tower_lsp.Codec.Headers.{Header, decode_headers, missing_content_length, utf8, body}
use tower_lsp.Codec.Wire.{Wire, complete}
use tower_lsp.Codec.Encode.RoundTrip.{advance_append}
use tower_lsp.Codec.Decode.{
  default, parse_message, advance, read_message, decode_body, skip_headers, skip_garbage,
  decode_status, decode_for, decode,
}

parse_message-err :
    {T J : Type 0} (wire : Wire T J) (text : List ℕ) {e : J}
    → text ≢ []
    → wire.from_str text ≡ err e
    → parse_message wire text ≡ err (body e)
unfolding parse_message
parse_message-err wire [] filled bad = absurd (filled refl)
parse_message-err wire (c ∷ cs) filled bad = rw (bad, parse_message)

module _ {T J : Type 0} (wire : Wire T J) where
  -- If the body of a message is not UTF-8, the decoder keeps the length and the buffer as they
  -- are: every later call, whatever bytes have come behind, gives the same error again.
  pub decode_invalid_utf8 :
      (n : ℕ) (src more : List ℕ) (e : Utf8Error)
      → n ≤ length src
      → from_utf8 (take n src) ≡ err e
      → decode wire (record { content_len = some n }) (src ++ more)
        ≡ some (record {
          codec = record { content_len = some n };
          src = src ++ more;
          result = err (utf8 e);
        })
  unfolding decode decode_for decode_body read_message
  decode_invalid_utf8 n src more e h bad =
      let enough : ltb (length (src ++ more)) n ≡ false = ground (arith, length-append src more) in
      rw (enough, decode_body) (rw (take-append_of_le n src more h, read_message, bad) refl)

  -- If the headers of a message have no length, and the text `Content-Length` is nowhere in the
  -- buffer, nothing of the buffer is dropped: the next call meets the same headers.
  pub decode_missing_length :
      (n : ℕ) (hs : List Header) (src : List ℕ)
      → wire.parse_headers src ≡ ok (complete n hs)
      → decode_headers {J = J} hs ≡ err missing_content_length
      → wire.find src (codes "Content-Length") ≡ none
      → decode wire (record { content_len = none }) src
        ≡ some (record {
          codec = record { content_len = none };
          src = src;
          result = err missing_content_length;
        })
  unfolding decode decode_for decode_status skip_headers skip_garbage advance
  decode_missing_length n hs src parsed bad missed =
      rw (parsed, bad, decode_status) (rw (missed, skip_garbage) (ground arith))

  -- A body that serde_json refuses is taken from the buffer with its error.
  pub decode_unreadable :
      (msg text rest : List ℕ) {e : J}
      → from_utf8 msg ≡ ok text
      → text ≢ []
      → wire.from_str text ≡ err e
      → decode wire (record { content_len = some (length msg) }) (msg ++ rest)
        ≡ some (record { codec = default; src = rest; result = err (body e) })
  unfolding decode decode_for decode_body read_message default
  decode_unreadable msg text rest valid filled bad =
      let enough : ltb (length (msg ++ rest)) (length msg) ≡ false =
        ground (arith, length-append msg rest) in
      rw (enough, decode_body)
        (rw (take-append_length msg rest, read_message, valid)
          (rw (advance_append msg rest) (rw (parse_message-err wire text filled bad) refl)))
