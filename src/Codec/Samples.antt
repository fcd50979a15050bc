-- ===== src/Codec/Samples.antt =====
-- Data of the tests: messages that are texts, and a parser for one header.
use mathlib.Core.Option
use tower_lsp.Base.{
  ℕ, suc, ◌+◌, ◌≤◌, ◌≡◌, refl, inl, inr, List, [], ◌∷◌, ◌++◌, Option, none, some, arith, length,
  Result, ok, Option-cases, Bool-cases, nat_eq,
}
use tower_lsp.Base.Text.{strip_prefix}
use tower_lsp.Codec.Headers.{Header}
use tower_lsp.Codec.Wire.{Wire, IsBounded, Status, complete, partial, HeadersError}
use tower_lsp.Codec.Decode.Progress.{IsStable}
use tower_lsp.Codec.Encode.{header_of}
use tower_lsp.Codec.Encode.RoundTrip.{length_header}

strip_prefix-length : (p cs r : List ℕ) → strip_prefix p cs ≡ some r → length p ≤ length cs
unfolding strip_prefix
strip_prefix-length [] cs r e = omega arith
strip_prefix-length (p ∷ ps) [] r e = absurd (cc)
strip_prefix-length (p ∷ ps) (c ∷ cs) r e = elim (Bool-cases (nat_eq p c)) [
  | inl same ↦ omega (arith, strip_prefix-length ps cs r (rw (same, strip_prefix) at e))
  | inr other ↦
      let e' : ◌≡◌ {A = Option (List ℕ)} none (some r) = rw (other, strip_prefix) at e in
      absurd (cc)
]

strip_prefix-append :
    (p cs r more : List ℕ)
    → strip_prefix p cs ≡ some r
    → strip_prefix p (cs ++ more) ≡ some (r ++ more)
unfolding strip_prefix
strip_prefix-append [] cs r more e = cc
strip_prefix-append (p ∷ ps) [] r more e = absurd (cc)
strip_prefix-append (p ∷ ps) (c ∷ cs) r more e = elim (Bool-cases (nat_eq p c)) [
  | inl same ↦
      rw (same, strip_prefix) (strip_prefix-append ps cs r more (rw (same, strip_prefix) at e))
  | inr other ↦
      let e' : ◌≡◌ {A = Option (List ℕ)} none (some r) = rw (other, strip_prefix) at e in
      absurd (cc)
]

abbrev after_header : Option (List ℕ) → Result Status HeadersError
after_header (some rest) = ok (complete (length (header_of 2)) (length_header 2 ∷ []))
after_header none = ok partial

-- Knows the header of a message of two bytes only.
unfoldable pub parse_headers : List ℕ → Result Status HeadersError
unfolding strip_prefix header_of
parse_headers src = after_header (strip_prefix (header_of 2) src)

unfoldable pub find : List ℕ → List ℕ → Option ℕ
unfolding strip_prefix
find [] needle = none
find (c ∷ cs) needle = elim (strip_prefix needle (c ∷ cs)) [
  | some rest ↦ some 0
  | none ↦ Option.map suc (find cs needle)
]

after_header-complete :
    (m : Option (List ℕ)) (n : ℕ) (hs : List Header)
    → after_header m ≡ ok (complete n hs)
    → (r : List ℕ) × (m ≡ some r) × (n ≡ length (header_of 2)) × (hs ≡ length_header 2 ∷ [])
after_header-complete (some r) n hs e = (r, refl, cc, cc)
after_header-complete none n hs e = absurd (cc)

abbrev pub wire : Wire (List ℕ) (Unit {0})
wire = record {
  parse_headers = parse_headers;
  find = find;
  from_str = λ text. ok text;
  to_string = λ item. ok item;
}

parse_headers-le :
    (src : List ℕ) (n : ℕ) (hs : List Header)
    → parse_headers src ≡ ok (complete n hs)
    → n ≤ length src
unfolding parse_headers
parse_headers-le src n hs e =
    let (r, there, same, _) = after_header-complete (strip_prefix (header_of 2) src) n hs e in
    omega (arith, same, strip_prefix-length (header_of 2) src r there)

parse_headers-append :
    (src more : List ℕ) (n : ℕ) (hs : List Header)
    → parse_headers src ≡ ok (complete n hs)
    → parse_headers (src ++ more) ≡ ok (complete n hs)
unfolding parse_headers
parse_headers-append src more n hs e =
    let (r, there, same, same_hs) = after_header-complete (strip_prefix (header_of 2) src) n hs e in
    rw (strip_prefix-append (header_of 2) src r more there, same, same_hs) refl

find-le : (src needle : List ℕ) (k : ℕ) → find src needle ≡ some k → k + length needle ≤ length src
unfolding find
find-le [] needle k e = absurd (cc)
find-le (c ∷ cs) needle k e = elim (Option-cases (strip_prefix needle (c ∷ cs))) [
  | inl absent ↦ elim (Option-cases (find cs needle)) [
    | inl missed ↦
        let e' : ◌≡◌ {A = Option ℕ} none (some k) = rw (absent, missed, find) at e in absurd (cc)
    | inr (j, found) ↦
        let e' : some (suc j) ≡ some k = rw (absent, found, find) at e in
        let same : suc j ≡ k = cc in omega (arith, same, find-le cs needle j found)
  ]
  | inr (rest, there) ↦
      let e' : some 0 ≡ some k = rw (there, find) at e in
      let same : 0 ≡ k = cc in omega (arith, same, strip_prefix-length needle (c ∷ cs) rest there)
]

pub wire-IsBounded : IsBounded wire
wire-IsBounded = record { parsed = parse_headers-le; found = find-le }

pub wire-IsStable : IsStable wire
wire-IsStable = record { parsed = parse_headers-append; within = parse_headers-le }
