-- ===== src/Codec/Decode/Total.antt =====
-- The decoder does not panic, and never reads past the buffer: src/codec.rs.
use tower_lsp.Base.{
  ℕ, ◌≤◌, ◌≡◌, refl, ◌⊎◌, inl, inr, List, Option, none, some, arith, ltb, length, take, drop,
  length-drop, Option-cases, Bool-cases, Result, ok, err,
}
use tower_lsp.Base.Text.{codes}
use tower_lsp.Codec.Utf8.{from_utf8}
use tower_lsp.Codec.Headers.{ParseError, missing_content_length, decode_headers}
use tower_lsp.Codec.Wire.{Wire, IsBounded, Status, complete, partial, HeadersError}
use tower_lsp.Codec.Decode.{
  Codec, Decoded, advance, read_message, decode_body, skip_headers, skip_garbage, decode_status,
  decode_for, decode,
}

pub advance-some : (n : ℕ) (src : List ℕ) → n ≤ length src → advance n src ≡ some (drop n src)
unfolding advance
advance-some n src h = ground arith

pub Result-cases :
    {A E : Type 0} (r : Result A E) → ((a : A) × (r ≡ ok a)) ⊎ ((e : E) × (r ≡ err e))
Result-cases (ok a) = inl (a, refl)
Result-cases (err e) = inr (e, refl)

module _ {T J : Type 0} (wire : Wire T J) where
  -- A call that does not panic and leaves no more than there was.
  abbrev pub IsFine : List ℕ → Option (Decoded T J) → Type 0
  IsFine src r = (d : Decoded T J) × (r ≡ some d) × (length d.src ≤ length src)

  read_message-IsFine :
      (n : ℕ) (src : List ℕ) → n ≤ length src → IsFine src (read_message wire n src)
  unfolding read_message
  read_message-IsFine n src h = elim (Result-cases (from_utf8 (take n src))) [
    | inr (e, bad) ↦ rw (bad, read_message) (_, refl, omega arith)
    | inl (message, good) ↦
        rw (good, read_message)
          (rw (advance-some n src h) (_, refl, omega (arith, length-drop n src)))
  ]

  decode_body-IsFine : (n : ℕ) (src : List ℕ) → IsFine src (decode_body wire n src)
  unfolding decode_body
  decode_body-IsFine n src = elim (Bool-cases (ltb (length src) n)) [
    | inl short ↦ rw (short, decode_body) (_, refl, omega arith)
    | inr there ↦ rw (there, decode_body) (read_message-IsFine n src (ground arith))
  ]

  IsFine-mono :
      (src src' : List ℕ) (r : Option (Decoded T J))
      → length src' ≤ length src
      → IsFine src' r
      → IsFine src r
  IsFine-mono src src' r h (d, e, l) = (d, e, omega arith)

  module _ (bounds : IsBounded wire) where
    skip_garbage-some :
        (src : List ℕ)
        → (src' : List ℕ) × (skip_garbage wire src ≡ some src') × (length src' ≤ length src)
    unfolding skip_garbage
    skip_garbage-some src = elim (Option-cases (wire.find src (codes "Content-Length"))) [
      | inl missed ↦ rw (missed, skip_garbage) (src, advance-some 0 src (omega arith), omega arith)
      | inr (k, found) ↦
          rw (found, skip_garbage)
            (
              drop k src,
              advance-some k src (omega (arith, bounds.found src _ k found)),
              omega (arith, length-drop k src),
            )
    ]

    skip_headers-some :
        (e : ParseError J) (n : ℕ) (src : List ℕ)
        → n ≤ length src
        → (src' : List ℕ) × (skip_headers wire e n src ≡ some src') × (length src' ≤ length src)
    unfolding skip_headers
    skip_headers-some missing_content_length n src h = (src, refl, omega arith)
    skip_headers-some e n src h =
        (drop n src, advance-some n src h, omega (arith, length-drop n src))

    decode_status-IsFine :
        (src : List ℕ) (r : Result Status HeadersError)
        → wire.parse_headers src ≡ r
        → IsFine src (decode_status wire src r)
    unfolding decode_status
    decode_status-IsFine src (err e) p = (_, refl, omega arith)
    decode_status-IsFine src (ok partial) p = (_, refl, omega arith)
    decode_status-IsFine src (ok (complete n hs)) p =
        let h : n ≤ length src = bounds.parsed src n hs p in
        elim (Result-cases (decode_headers {J = J} hs)) [
          | inl (len, good) ↦
              rw (good, decode_status)
                (rw (advance-some n src h) (
                  IsFine-mono src (drop n src) _ (omega (arith, length-drop n src))
                    (decode_body-IsFine len (drop n src))))
          | inr (e, bad) ↦
              let (src', skipped, l) = skip_headers-some e n src h in
              let (src'', found, l') = skip_garbage-some src' in
              rw (bad, decode_status) (rw (skipped) (rw (found) (_, refl, omega arith)))
        ]

    decode_for-IsFine : (len : Option ℕ) (src : List ℕ) → IsFine src (decode_for wire len src)
    unfolding decode_for
    decode_for-IsFine none src = decode_status-IsFine src (wire.parse_headers src) refl
    decode_for-IsFine (some n) src = decode_body-IsFine n src

    -- Whatever the buffer holds, a call of the decoder returns: no `advance` goes past the end of
    -- the buffer, provided that httparse and memchr return numbers within it. What is left of the
    -- buffer is no longer than it was.
    pub decode_total :
        (codec : Codec) (src : List ℕ)
        → (d : Decoded T J) × (decode wire codec src ≡ some d) × (length d.src ≤ length src)
    unfolding decode
    decode_total codec src = decode_for-IsFine codec.content_len src
