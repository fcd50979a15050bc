-- ===== src/Codec/Decode/Stuck.antt =====
-- A decoder that is called again behind headers without a length: src/codec.rs.
use tower_lsp.Base.{
  ℕ, ◌≡◌, ◌≢◌, refl, false, List, [], ◌∷◌, ◌++◌, Option, none, some, All, map, Result, ok, err,
  arith, String_eq, eq_iff, ◌==◌, String,
}
use tower_lsp.Base.Options.{◌>>=◌}
use tower_lsp.Base.Text.{codes}
use tower_lsp.Codec.Headers.{
  Header, ParseError, decode_headers, decode_from, missing_content_length,
}
use tower_lsp.Codec.Wire.{Wire, complete}
use tower_lsp.Codec.Decode.{Codec, decode}
use tower_lsp.Codec.Decode.Errors.{decode_missing_length}
use tower_lsp.Codec.Decode.Progress.{IsStable}

-- A header that says nothing about the body.
abbrev pub IsOther : Header → Type 0
IsOther h = (h.name ≢ "Content-Length") × (h.name ≢ "Content-Type")

differs : (s t : String) → s ≢ t → (s == t) ≡ false
differs s t other = ground (arith, eq_iff s t)

module _ {J : Type 0} where
  decode_from-others :
      (hs : List Header) → All IsOther hs → decode_from {J = J} none hs ≡ decode_from none []
  unfolding decode_from
  decode_from-others [] o = refl
  decode_from-others (h ∷ hs) ((a, b), o) =
      rw (differs h.name "Content-Length" a, differs h.name "Content-Type" b)
        (decode_from-others hs o)

  decode_headers-others :
      (hs : List Header) → All IsOther hs → decode_headers {J = J} hs ≡ err missing_content_length
  unfolding decode_headers decode_from
  decode_headers-others hs o = rw (decode_from-others hs o) refl

module _ {T J : Type 0} (wire : Wire T J) where
  -- A call of `decode` behind each piece that comes in, with the results and what is left.
  abbrev pub feed :
      List (List ℕ)
      → Codec
      → List ℕ
      → Option (List (Result (Option T) (ParseError J)) × Codec × List ℕ)
  feed [] codec src = some ([], codec, src)
  feed (piece ∷ pieces) codec src = do
    d ← decode wire codec (src ++ piece)
    (results, codec', src') ← feed pieces d.codec d.src
    some (d.result ∷ results, codec', src')

  abbrev pub join : List ℕ → List (List ℕ) → List ℕ
  join src [] = src
  join src (piece ∷ pieces) = join (src ++ piece) pieces

  -- `Content-Length` never is in the buffer.
  abbrev pub IsNowhere : List ℕ → List (List ℕ) → Type 0
  IsNowhere src [] = Unit
  IsNowhere src (piece ∷ pieces) =
      (wire.find (src ++ piece) (codes "Content-Length") ≡ none) × IsNowhere (src ++ piece) pieces

  -- If the headers of a message are complete and neither a length nor a type is among them, then
  -- for as long as the text `Content-Length` is nowhere in the buffer, every call of the decoder,
  -- with whatever piece has come in before it, gives the error of the missing length again, and
  -- nothing is ever dropped from the buffer; provided that httparse does not change its mind
  -- about complete headers when more bytes come.
  pub feed_missing_length :
      (n : ℕ) (hs : List Header) (src : List ℕ) (pieces : List (List ℕ))
      → IsStable wire
      → wire.parse_headers src ≡ ok (complete n hs)
      → All IsOther hs
      → IsNowhere src pieces
      → feed pieces (record { content_len = none }) src
        ≡ some (
          map (λ piece. err missing_content_length) pieces,
          record { content_len = none },
          join src pieces,
        )
  feed_missing_length n hs src [] stable parsed others nowhere = refl
  feed_missing_length n hs src (piece ∷ pieces) stable parsed others (here, nowhere) =
      let more = stable.parsed src piece n hs parsed in
      rw
        (decode_missing_length wire n hs (src ++ piece) more (decode_headers-others hs others) here)
        (rw (feed_missing_length n hs (src ++ piece) pieces stable more others nowhere) refl)
