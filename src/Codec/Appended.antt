-- ===== src/Codec/Appended.antt =====
-- Messages that are encoded one at a time: src/codec.rs.
use tower_lsp.Base.{ℕ, ◌≡◌, refl, ap, ◌∙◌, inl, inr, ◌⊎◌, List, [], ◌∷◌, ◌++◌, Result, ok, err}
use tower_lsp.Codec.Headers.{ParseError}
use tower_lsp.Codec.Wire.{Wire}
use tower_lsp.Codec.Encode.{encode, frame}
use tower_lsp.Codec.Stream.{encode_all}

pub encode_ok :
    {T J : Type 0} (wire : Wire T J) (m : T) (dst : List ℕ) {msg : List ℕ}
    → wire.to_string m ≡ ok msg
    → encode wire m dst ≡ ok (dst ++ frame msg)
unfolding encode
encode_ok wire m dst e = rw e refl

module _ {T J : Type 0} (wire : Wire T J) where
  pub Result-cases :
      (r : Result (List ℕ) (ParseError J))
      → ((a : List ℕ) × (r ≡ ok a)) ⊎ ((e : ParseError J) × (r ≡ err e))
  Result-cases (ok a) = inl (a, refl)
  Result-cases (err e) = inr (e, refl)

  pub encode_all-append :
      (ms : List T) (m : T) (dst mid last : List ℕ)
      → encode_all wire ms dst ≡ ok mid
      → encode wire m mid ≡ ok last
      → encode_all wire (ms ++ m ∷ []) dst ≡ ok last
  unfolding encode_all
  encode_all-append [] m dst mid last e f =
      let same : dst ≡ mid = cc in
      let f' : encode wire m dst ≡ ok last = ap (encode wire m) same ∙ f in rw (f', encode_all) refl
  encode_all-append (n ∷ ms) m dst mid last e f = elim (Result-cases (encode wire n dst)) [
    | inl (dst', here) ↦
        rw (here, encode_all) (encode_all-append ms m dst' mid last (rw (here, encode_all) at e) f)
    | inr (bad, here) ↦
        let e' : ◌≡◌ {A = Result (List ℕ) (ParseError J)} (err bad) (ok mid) =
          rw (here, encode_all) at e in
        absurd (cc)
  ]
