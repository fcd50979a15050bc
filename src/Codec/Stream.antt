-- ===== src/Codec/Stream.antt =====
-- Several messages in one stream: src/codec.rs.
use mathlib.Core.List.{append_assoc, append-nil}
use tower_lsp.Base.{
  ℕ, zero, suc, ◌<◌, ◌≡◌, ◌≢◌, refl, sym, ap, ◌∙◌, List, [], ◌∷◌, ◌++◌, Option, some, length, All,
  map, Result, ok, err,
}
use tower_lsp.Base.Options.{◌>>=◌}
use tower_lsp.Codec.Utf8.{from_utf8}
use tower_lsp.Codec.Decimal.{usize_mod}
use tower_lsp.Codec.Headers.{ParseError}
use tower_lsp.Codec.Wire.{Wire}
use tower_lsp.Codec.Decode.{Codec, default, decode}
use tower_lsp.Codec.Encode.{frame, encode}
use tower_lsp.Codec.Encode.RoundTrip.{ParsesFrame, decode-encode}

module _ {T J : Type 0} (wire : Wire T J) where
  -- Messages that are encoded behind one another.
  unfoldable pub encode_all : List T → List ℕ → Result (List ℕ) (ParseError J)
  encode_all [] dst = ok dst
  encode_all (item ∷ items) dst = elim (encode wire item dst) [
    | ok dst' ↦ encode_all items dst'
    | err e ↦ err e
  ]

  -- As many calls of `decode` on one buffer, with their results, and what they leave.
  unfoldable pub decode_times :
      ℕ → Codec → List ℕ → Option (List (Result (Option T) (ParseError J)) × Codec × List ℕ)
  decode_times zero codec src = some ([], codec, src)
  decode_times (suc n) codec src = do
    d ← decode wire codec src
    (results, codec', src') ← decode_times n d.codec d.src
    some (d.result ∷ results, codec', src')

  -- What serde_json and httparse do with a message, whatever stands behind it.
  pub record IsReadable (item : T) : Type 0 where
    pub msg : List ℕ
    pub text : List ℕ
    pub printed : wire.to_string item ≡ ok msg
    pub valid : from_utf8 msg ≡ ok text
    pub parsed : wire.from_str text ≡ ok item
    pub filled : text ≢ []
    pub bound : length msg < usize_mod
    pub framed : (rest : List ℕ) → ParsesFrame wire (length msg) (msg ++ rest)

  frames : (items : List T) → All IsReadable items → List ℕ
  frames [] hs = []
  frames (item ∷ items) (h, hs) = frame h.msg ++ frames items hs

  encode-frame :
      (item : T) (h : IsReadable item) (dst : List ℕ)
      → encode wire item dst ≡ ok (dst ++ frame h.msg)
  unfolding encode
  encode-frame item h dst = rw (h.printed) refl

  encode_all-frames :
      (items : List T) (hs : All IsReadable items) (dst : List ℕ)
      → encode_all items dst ≡ ok (dst ++ frames items hs)
  unfolding encode_all frames
  encode_all-frames [] hs dst = ap ok (sym (append-nil dst))
  encode_all-frames (item ∷ items) (h, hs) dst =
      rw (encode-frame item h dst, encode_all)
        (encode_all-frames items hs (dst ++ frame h.msg)
          ∙ ap ok (append_assoc dst (frame h.msg) (frames items hs)))

  decode_times-frames :
      (items : List T) (hs : All IsReadable items) (rest : List ℕ)
      → decode_times (length items) default (frames items hs ++ rest)
        ≡ some (map (λ item. ok (some item)) items, default, rest)
  unfolding decode_times frames
  decode_times-frames [] hs rest = refl
  decode_times-frames (item ∷ items) (h, hs) rest =
      let behind = frames items hs ++ rest in
      let first =
        decode-encode wire item h.msg h.text behind h.printed h.valid h.parsed h.filled h.bound
          (h.framed behind) (frame h.msg) (encode-frame item h []) in
      rw
        (
          append_assoc (frame h.msg) (frames items hs) rest,
          first,
          decode_times-frames items hs rest,
        )
        refl

  -- Messages that are encoded behind one another, with anything behind them in the buffer, come
  -- out of as many calls of `decode` of a new codec, the same ones in the same order; the rest
  -- stays in the buffer and the codec is as new. Of each message this asks that serde_json reads
  -- back what it printed, that this is a text of less than 2^64 bytes and not empty, and that
  -- httparse reads the header that was written.
  pub decode_times-encode_all :
      (items : List T) (buf rest : List ℕ)
      → All IsReadable items
      → encode_all items [] ≡ ok buf
      → decode_times (length items) default (buf ++ rest)
        ≡ some (map (λ item. ok (some item)) items, default, rest)
  decode_times-encode_all items buf rest hs e =
      let all = encode_all-frames items hs [] in
      let same : frames items hs ≡ buf = cc in rw (← same) (decode_times-frames items hs rest)
