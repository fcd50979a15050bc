-- ===== src/Codec/Encode/RoundTrip.antt =====
-- What the encoder writes is read back: src/codec.rs.
use mathlib.Core.List.{append_assoc}
use tower_lsp.Base.{
  ℕ, zero, suc, ◌+◌, ◌/◌, ◌%◌, ◌<◌, ◌≡◌, refl, inl, inr, false, List, [], ◌∷◌, ◌++◌, some, arith,
  ltb, length, length-append, take-append_length, drop-append_length, Bool-cases, ok, ◌≢◌,
}
use tower_lsp.Codec.Utf8.{from_utf8}
use tower_lsp.Codec.Utf8.Ascii.{IsAscii, from_utf8-ascii}
use tower_lsp.Codec.Decimal.{print_digits, print_usize, usize_mod}
use tower_lsp.Codec.Decimal.RoundTrip.{parse_usize-print}
use tower_lsp.Codec.Headers.{Header, decode_headers, decode_from, read_length}
use tower_lsp.Codec.Wire.{Wire, complete}
use tower_lsp.Codec.Decode.{
  default, advance, read_message, parse_message, decode_body, decode_status, decode_for, decode,
}
use tower_lsp.Codec.Encode.{header_of, frame, encode}

print_digits-IsAscii : (f n : ℕ) (acc : List ℕ) → IsAscii acc → IsAscii (print_digits f n acc)
unfolding print_digits
print_digits-IsAscii zero n acc h = (omega arith, h)
print_digits-IsAscii (suc f) n acc h = elim (Bool-cases (ltb n 10)) [
  | inl small ↦ rw (small, print_digits) (omega arith, h)
  | inr large ↦
      rw (large, print_digits)
        (print_digits-IsAscii f (n / 10) ((b'0' + n % 10) ∷ acc) (omega arith, h))
]

-- The header that the encoder writes, as httparse reads it.
abbrev pub length_header : ℕ → Header
length_header n = record { name = "Content-Length"; value = print_usize n }

print_usize-from_utf8 : (n : ℕ) → from_utf8 (print_usize n) ≡ ok (print_usize n)
unfolding print_usize
print_usize-from_utf8 n = from_utf8-ascii (print_digits n n []) (print_digits-IsAscii n n [] tt)

decode_headers-length :
    (J : Type 0) (n : ℕ) → n < usize_mod → decode_headers {J = J} (length_header n ∷ []) ≡ ok n
unfolding decode_headers decode_from read_length
decode_headers-length J n b = rw (print_usize-from_utf8 n, parse_usize-print n b)

-- What httparse makes of the header that the encoder writes, with `rest` behind it.
abbrev pub ParsesFrame : {T J : Type 0} → Wire T J → ℕ → List ℕ → Type 0
ParsesFrame wire n rest =
    wire.parse_headers (header_of n ++ rest)
    ≡ ok (complete (length (header_of n)) (length_header n ∷ []))

parse_message-eq :
    {T J : Type 0} (wire : Wire T J) (text : List ℕ) {item : T}
    → text ≢ []
    → wire.from_str text ≡ ok item
    → parse_message wire text ≡ ok (some item)
unfolding parse_message
parse_message-eq wire [] filled parsed = absurd (filled refl)
parse_message-eq wire (c ∷ cs) filled parsed = rw (parsed, parse_message)

pub advance_append : (xs ys : List ℕ) → advance (length xs) (xs ++ ys) ≡ some ys
unfolding advance
advance_append xs ys = ground (arith, length-append xs ys, drop-append_length xs ys)

module _ {T J : Type 0} (wire : Wire T J) (item : T) (msg text rest : List ℕ)
    (printed : wire.to_string item ≡ ok msg) (valid : from_utf8 msg ≡ ok text)
    (parsed : wire.from_str text ≡ ok item) (filled : text ≢ []) (bound : length msg < usize_mod)
    (framed : ParsesFrame wire (length msg) (msg ++ rest)) where
  decode_body-frame :
      decode_body wire (length msg) (msg ++ rest)
      ≡ some (record { codec = default; src = rest; result = ok (some item) })
  unfolding decode_body read_message default
  decode_body-frame =
      let enough : ltb (length (msg ++ rest)) (length msg) ≡ false =
        ground (arith, length-append msg rest) in
      rw (enough, decode_body)
        (rw (take-append_length msg rest, read_message, valid)
          (rw (advance_append msg rest) (rw (parse_message-eq wire text filled parsed) refl)))

  decode-frame :
      decode wire default (header_of (length msg) ++ (msg ++ rest))
      ≡ some (record { codec = default; src = rest; result = ok (some item) })
  unfolding decode decode_for decode_status default
  decode-frame =
      rw (framed, decode_headers-length J (length msg) bound, decode_status)
        (rw (advance_append (header_of (length msg)) (msg ++ rest)) decode_body-frame)

  -- A message that is encoded, with anything behind it in the buffer, is decoded by a new codec
  -- to the same message; the rest stays in the buffer and the codec is as new. This asks that
  -- serde_json reads back what it printed, that this is a text of less than 2^64 bytes and not
  -- empty, and that httparse reads the header that was written.
  pub decode-encode :
      (buf : List ℕ)
      → encode wire item [] ≡ ok buf
      → decode wire default (buf ++ rest)
        ≡ some (record { codec = default; src = rest; result = ok (some item) })
  unfolding encode frame
  decode-encode buf e =
      let written : header_of (length msg) ++ msg ≡ buf = ground (arith, printed) in
      rw (← written, append_assoc) decode-frame
