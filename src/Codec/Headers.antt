-- ===== src/Codec/Headers.antt =====
-- The headers of a message: `ParseError` and `decode_headers` of src/codec.rs.

use tower_lsp.Base.{
  ℕ, String, Bool, false, ◌||◌, List, [], ◌∷◌, Option, none, some, drop, if◌then◌else◌, ◌==◌,
  Result, ok, err, map_err, ◌>>=◌, String_eq, List_eq, ℕ_eq,
}
use tower_lsp.Base.Text.{codes, trim, split, strip_prefix, find_map}
use tower_lsp.Codec.Utf8.{Utf8Error, from_utf8}
use tower_lsp.Codec.Decimal.{ParseIntError, parse_usize}

-- `J` is the type of the errors of serde_json; the error of an output stream and that of
-- httparse carry nothing that is read.
pub data ParseError (J : Type 0) : Type 0 where
  body : J → ParseError J
  encode headers invalid_content_type missing_content_length : ParseError J
  invalid_content_length : ParseIntError → ParseError J
  utf8 : Utf8Error → ParseError J

-- `httparse::Header`
pub record Header : Type 0 where
  pub name : String
  pub value : List ℕ

-- The parameter `charset` of a media type.
unfoldable pub charset_of : List ℕ → Option (List ℕ)
unfolding find_map strip_prefix trim split
charset_of media =
    find_map (λ param. strip_prefix (codes "charset=") (trim param)) (drop 1 (split b';' media))

unfoldable pub is_utf8_charset : Option (List ℕ) → Bool
is_utf8_charset none = false
is_utf8_charset (some c) = c == codes "utf-8" || c == codes "utf8"

module _ {J : Type 0} where
  unfoldable pub read_length : List ℕ → Result ℕ (ParseError J)
  read_length value = do
    text ← map_err utf8 (from_utf8 value)
    map_err invalid_content_length (parse_usize text)

  unfoldable pub check_content_type : List ℕ → Result (Unit {0}) (ParseError J)
  unfolding is_utf8_charset charset_of
  check_content_type value = do
    text ← map_err utf8 (from_utf8 value)
    if is_utf8_charset (charset_of text) then ok tt else err invalid_content_type

  -- The loop over the headers; the last length counts.
  unfoldable pub decode_from : Option ℕ → List Header → Result (Option ℕ) (ParseError J)
  unfolding read_length check_content_type
  decode_from content_len [] = ok content_len
  decode_from content_len (h ∷ hs) =
      let length = read_length h.value >>= (λ n. decode_from (some n) hs) in
      let type = check_content_type h.value >>= (λ _. decode_from content_len hs) in
      let other = decode_from content_len hs in
      if h.name == "Content-Length"
      then length
      else if h.name == "Content-Type"
      then type
      else other

  abbrev or_missing : Option ℕ → Result ℕ (ParseError J)
  or_missing none = err missing_content_length
  or_missing (some n) = ok n

  unfoldable pub decode_headers : List Header → Result ℕ (ParseError J)
  unfolding decode_from
  decode_headers hs = decode_from none hs >>= or_missing
