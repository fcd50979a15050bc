-- ===== src/Codec/Tests.antt =====
-- The theorems of the codec at concrete messages.
use tower_lsp.Base.{
  ℕ, String_eq, List_eq, ℕ_eq, ◌≤◌, ◌≡◌, refl, List, [], ◌∷◌, ◌++◌, none, some, arith, length,
  Result, ok, err,
}
use tower_lsp.JsonRpc.Message.{Message, request}
use tower_lsp.JsonRpc.Document.{object, SerdeJson}
use tower_lsp.JsonRpc.Documents.{Tree, word, make, documents}
use tower_lsp.JsonRpc.Serialize.{serialize_message}
use tower_lsp.Codec.Messages.{message_wire, write_text, IsSent, decode_times-messages}
use tower_lsp.Codec.Utf8.{from_utf8, utf8_error}
use tower_lsp.Codec.Decimal.{print_usize, parse_usize}
use tower_lsp.Codec.Headers.{Header, utf8, missing_content_length, decode_headers}
use tower_lsp.Codec.Wire.{Wire, Status, complete, partial, HeadersError}
use tower_lsp.Codec.Decode.{Decoded, default, decode}
use tower_lsp.Codec.Decode.Total.{decode_total}
use tower_lsp.Codec.Decode.Progress.{decode_chunks}
use tower_lsp.Codec.Decode.Errors.{decode_invalid_utf8}
use tower_lsp.Codec.Decode.Stuck.{feed, feed_missing_length}
use tower_lsp.Codec.Encode.{frame, header_of, encode}
use tower_lsp.Codec.Samples.{wire, wire-IsBounded, wire-IsStable, parse_headers, find}
use tower_lsp.Codec.Stream.{IsReadable, encode_all, decode_times}

-- "{}"
abbrev braces : List ℕ
braces = 123 ∷ 125 ∷ []

decode_chunks_example :
    decode wire (record { content_len = some 2 }) ((123 ∷ []) ++ (125 ∷ []))
    ≡ decode wire default ((header_of 2 ++ 123 ∷ []) ++ (125 ∷ []))
unfolding decode default header_of parse_headers print_usize decode_headers from_utf8 parse_usize
decode_chunks_example =
    decode_chunks wire wire-IsStable default (header_of 2 ++ 123 ∷ []) (123 ∷ []) (125 ∷ []) 2 refl

decode_total_example :
    (d : Decoded (List ℕ) (Unit {0})) × (decode wire default (frame braces) ≡ some d)
    × (length d.src ≤ length (frame braces))
decode_total_example = decode_total wire wire-IsBounded default (frame braces)

decode_invalid_utf8_example :
    decode wire (record { content_len = some 1 }) ((255 ∷ []) ++ frame braces)
    ≡ some (record {
      codec = record { content_len = some 1 };
      src = (255 ∷ []) ++ frame braces;
      result = err (utf8 utf8_error);
    })
unfolding from_utf8
decode_invalid_utf8_example =
    decode_invalid_utf8 wire 1 (255 ∷ []) (frame braces) utf8_error (omega arith) refl

-- A parser that takes any two bytes for the end of no headers.
abbrev parse_blank : List ℕ → Result Status HeadersError
parse_blank (c ∷ d ∷ rest) = ok (complete 2 [])
parse_blank _ = ok partial

abbrev blank : Wire (List ℕ) (Unit {0})
blank = record wire { parse_headers = parse_blank }

blank_parsed :
    (src more : List ℕ) (n : ℕ) (hs : List Header)
    → parse_blank src ≡ ok (complete n hs)
    → parse_blank (src ++ more) ≡ ok (complete n hs)
blank_parsed [] more n hs e = absurd (cc)
blank_parsed (c ∷ []) more n hs e = absurd (cc)
blank_parsed (c ∷ d ∷ rest) more n hs e = e

blank_within :
    (src : List ℕ) (n : ℕ) (hs : List Header)
    → parse_blank src ≡ ok (complete n hs)
    → n ≤ length src
blank_within [] n hs e = absurd (cc)
blank_within (c ∷ []) n hs e = absurd (cc)
blank_within (c ∷ d ∷ rest) n hs e = let same : 2 ≡ n = cc in omega (arith, same)

feed_missing_length_example :
    feed blank ((65 ∷ []) ∷ (66 ∷ []) ∷ []) (record { content_len = none }) (13 ∷ 10 ∷ [])
    ≡ some (
      err missing_content_length ∷ err missing_content_length ∷ [],
      record { content_len = none },
      13 ∷ 10 ∷ 65 ∷ 66 ∷ [],
    )
unfolding find
feed_missing_length_example =
    feed_missing_length blank 2 [] (13 ∷ 10 ∷ []) ((65 ∷ []) ∷ (66 ∷ []) ∷ [])
      (record { parsed = blank_parsed; within = blank_within }) refl tt (refl, (refl, tt))

braces-IsReadable : IsReadable wire braces
unfolding parse_headers from_utf8 header_of print_usize
braces-IsReadable = record {
  msg = braces;
  text = braces;
  printed = refl;
  valid = refl;
  parsed = refl;
  filled = λ e. cc;
  bound = omega arith;
  framed = λ rest. refl;
}

-- A notification, whose document is printed as two bytes.
abbrev note : Message Tree
note = request (record { method = "exit"; params = none; id = none })

abbrev note_document : Tree
note_document = make (object (("jsonrpc", word "2.0") ∷ ("method", word "exit") ∷ []))

abbrev note_serde : SerdeJson
note_serde = documents note_document

note-IsSent : IsSent note_serde parse_headers find note
unfolding serialize_message parse_headers from_utf8 header_of print_usize
note-IsSent = record {
  text = braces;
  valid = tt;
  is_text = refl;
  parsed = refl;
  filled = λ e. cc;
  bound = omega arith;
  framed = λ rest. refl;
}

decode_times-messages_example :
    decode_times
      (message_wire note_serde parse_headers find)
      2
      default
      ((frame braces ++ frame braces) ++ 67 ∷ [])
    ≡ some (ok (some note) ∷ ok (some note) ∷ [], default, 67 ∷ [])
unfolding encode_all encode frame header_of print_usize write_text
decode_times-messages_example =
    decode_times-messages note_serde parse_headers find (note ∷ note ∷ [])
      (frame braces ++ frame braces) (67 ∷ []) (note-IsSent, (note-IsSent, tt)) refl
