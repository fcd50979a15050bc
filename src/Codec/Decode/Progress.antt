-- ===== src/Codec/Decode/Progress.antt =====
-- Messages that come in pieces: src/codec.rs.
use tower_lsp.Base.{
  ℕ, ◌≤◌, ◌≡◌, refl, sym, ◌∙◌, inl, inr, List, ◌++◌, Option, none, some, arith, ltb, length, take,
  drop, length-append, drop-append_of_le, Bool-cases, Result, ok, err,
}
use tower_lsp.Base.Options.{◌>>=◌}
use tower_lsp.Codec.Utf8.{from_utf8}
use tower_lsp.Codec.Headers.{ParseError, utf8, Header, decode_headers}
use tower_lsp.Codec.Wire.{Wire, Status, complete, partial, HeadersError}
use tower_lsp.Codec.Decode.{
  Codec, Decoded, skip_headers, skip_garbage, parse_message, read_message, decode_body,
  decode_status, decode_for, decode,
}
use tower_lsp.Codec.Decode.Total.{Result-cases, advance-some}

-- httparse does not change its mind about headers that are complete.
pub record IsStable {T J : Type 0} (wire : Wire T J) : Type 0 where
  pub parsed :
      (src more : List ℕ) (n : ℕ) (hs : List Header)
      → wire.parse_headers src ≡ ok (complete n hs)
      → wire.parse_headers (src ++ more) ≡ ok (complete n hs)
  pub within :
      (src : List ℕ) (n : ℕ) (hs : List Header)
      → wire.parse_headers src ≡ ok (complete n hs)
      → n ≤ length src

module _ {T J : Type 0} (wire : Wire T J) (stable : IsStable wire) where
  -- The decoder waits for a body of `n` bytes.
  abbrev pub Waits : ℕ → List ℕ → Option (Decoded T J) → Type 0
  Waits n src r =
      r ≡ some (record { codec = record { content_len = some n }; src = src; result = ok none })

  Waits-injective :
      (m n : ℕ) (src s : List ℕ)
      → Waits n s
          (some (record { codec = record { content_len = some m }; src = src; result = ok none }))
      → (m ≡ n) × (src ≡ s)
  Waits-injective m n src s e = (cc, cc)

  read_message-¬Waits :
      (len n : ℕ) (src s : List ℕ) → len ≤ length src → ¬ Waits n s (read_message wire len src)
  unfolding read_message
  read_message-¬Waits len n src s h w = elim (Result-cases (from_utf8 (take len src))) [
    | inr (e, bad) ↦
        let left : read_message wire len src
            ≡ some (record {
              codec = record { content_len = some len };
              src = src;
              result = err (utf8 e);
            }) =
          rw (bad, read_message) refl in
        cc
    | inl (message, good) ↦
        let left : read_message wire len src
            ≡ some (record {
              codec = record { content_len = none };
              src = drop len src;
              result = parse_message wire message;
            }) =
          rw (good, read_message) (rw (advance-some len src h) refl) in
        cc
  ]

  found-¬Waits :
      (n : ℕ) (s : List ℕ) (e : ParseError J) (m : Option (List ℕ))
      → ¬ Waits n s (do
        src'' ← m
        some (record { codec = record { content_len = none }; src = src''; result = err e }))
  found-¬Waits n s e none w = cc
  found-¬Waits n s e (some src'') w = cc

  skipped-¬Waits :
      (n : ℕ) (s : List ℕ) (e : ParseError J) (m : Option (List ℕ)) (f : List ℕ → Option (List ℕ))
      → ¬ Waits n s (do
        src' ← m
        src'' ← f src'
        some (record { codec = record { content_len = none }; src = src''; result = err e }))
  skipped-¬Waits n s e none f w = cc
  skipped-¬Waits n s e (some src') f w = found-¬Waits n s e (f src') w

  decode_body-Waits :
      (len n : ℕ) (src s : List ℕ) → Waits n s (decode_body wire len src) → (len ≡ n) × (src ≡ s)
  unfolding decode_body read_message
  decode_body-Waits len n src s w = elim (Bool-cases (ltb (length src) len)) [
    | inl short ↦
        let e : decode_body wire len src
            ≡ some (record {
              codec = record { content_len = some len };
              src = src;
              result = ok none;
            }) =
          rw (short, decode_body) refl in
        Waits-injective len n src s (sym e ∙ w)
    | inr there ↦
        let e : decode_body wire len src ≡ read_message wire len src =
          rw (there, decode_body) refl in
        absurd (read_message-¬Waits len n src s (ground arith) (sym e ∙ w))
  ]

  decode_status-Waits :
      (src s more : List ℕ) (n : ℕ) (r : Result Status HeadersError)
      → wire.parse_headers src ≡ r
      → Waits n s (decode_status wire src r)
      → decode_status wire (src ++ more) (wire.parse_headers (src ++ more))
        ≡ decode_body wire n (s ++ more)
  unfolding decode_status
  decode_status-Waits src s more n (err e) p w = absurd (cc)
  decode_status-Waits src s more n (ok partial) p w = absurd (cc)
  decode_status-Waits src s more n (ok (complete k hs)) p w =
      elim (Result-cases (decode_headers {J = J} hs)) [
        | inl (len, good) ↦
            let h : k ≤ length src = stable.within src k hs p in
            let e : decode_status wire src (ok (complete k hs))
                ≡ decode_body wire len (drop k src) =
              rw (good, decode_status) (rw (advance-some k src h) refl) in
            let h' : k ≤ length (src ++ more) = omega (arith, h, length-append src more) in
            let (same_n, same_s) = decode_body-Waits len n (drop k src) s (sym e ∙ w) in
            rw (stable.parsed src more k hs p, good, decode_status)
              (rw (advance-some k (src ++ more) h', drop-append_of_le k src more h, same_n, same_s)
                refl)
        | inr (e, bad) ↦
            let left : decode_status wire src (ok (complete k hs)) ≡ (do
              src' ← skip_headers wire e k src
              src'' ← skip_garbage wire src'
              some
                  (record { codec = record { content_len = none }; src = src''; result = err e })) =
              rw (bad, decode_status) refl in
            absurd
              (skipped-¬Waits n s e (skip_headers wire e k src) (skip_garbage wire) (sym left ∙ w))
      ]

  decode_for-Waits :
      (len : Option ℕ) (src s more : List ℕ) (n : ℕ)
      → Waits n s (decode_for wire len src)
      → decode_for wire len (src ++ more) ≡ decode_body wire n (s ++ more)
  unfolding decode_for
  decode_for-Waits none src s more n w =
      decode_status-Waits src s more n (wire.parse_headers src) refl w
  decode_for-Waits (some len) src s more n w =
      let (same_n, same_s) = decode_body-Waits len n src s w in rw (same_n, same_s) refl

  -- A message may come in pieces. If the decoder, with some bytes in its buffer, keeps what is
  -- left of them and waits for a body of `n` bytes, then a call after more bytes have come gives
  -- what one call gives that meets all of the bytes at once, provided that httparse, which has
  -- found complete headers, finds the same ones when more bytes stand behind, and that their
  -- length is within the buffer.
  pub decode_chunks :
      (codec : Codec) (src s more : List ℕ) (n : ℕ)
      → Waits n s (decode wire codec src)
      → decode wire (record { content_len = some n }) (s ++ more) ≡ decode wire codec (src ++ more)
  unfolding decode decode_for
  decode_chunks codec src s more n w = sym (decode_for-Waits codec.content_len src s more n w)
