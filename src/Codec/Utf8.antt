-- ===== src/Codec/Utf8.antt =====
-- `std::str::from_utf8`: bytes to code points, as the standard library reads them.
pub mod Ascii
use tower_lsp.Base.{
  ℕ, zero, suc, ◌+◌, ◌-◌, ◌*◌, Bool, ◌&&◌, List, [], ◌∷◌, ◌++◌, Option, none, some, if◌then◌else◌,
  ltb, nat_eq, Result, ok, err,
}

-- What a sequence still needs: so many bytes, the next of them from `lo` to `hi`.
pub record Sequence : Type 0 where
  pub need : ℕ
  pub acc : ℕ
  pub lo : ℕ
  pub hi : ℕ

abbrev pub whole : Sequence
whole = record { need = 0; acc = 0; lo = 0x80; hi = 0xbf }

abbrev within : ℕ → ℕ → ℕ → Bool
within lo hi b = ltb b (hi + 1) && ltb lo (b + 1)

abbrev expect : ℕ → ℕ → ℕ → ℕ → Option (Sequence × List ℕ)
expect need acc lo hi = some (record { need = need; acc = acc; lo = lo; hi = hi }, [])

-- The first byte of a code point.
lead : ℕ → Option (Sequence × List ℕ)
lead b =
    if ltb b 0x80
    then some (whole, b ∷ [])
    else if within 0xc2 0xdf b
    then expect 1 (b - 0xc0) 0x80 0xbf
    else if nat_eq b 0xe0
    then expect 2 0 0xa0 0xbf
    else if nat_eq b 0xed
    then expect 2 0xd 0x80 0x9f
    else if within 0xe1 0xef b
    then expect 2 (b - 0xe0) 0x80 0xbf
    else if nat_eq b 0xf0
    then expect 3 0 0x90 0xbf
    else if within 0xf1 0xf3 b
    then expect 3 (b - 0xf0) 0x80 0xbf
    else if nat_eq b 0xf4
    then expect 3 4 0x80 0x8f
    else none

-- A further byte, with `more` to come behind it.
trail : Sequence → ℕ → ℕ → Option (Sequence × List ℕ)
trail s more b =
    let acc = s.acc * 64 + (b - 0x80) in
    if within s.lo s.hi b
    then (if nat_eq more 0 then some (whole, acc ∷ []) else expect more acc 0x80 0xbf)
    else none

utf8_step : ℕ → Sequence → ℕ → Option (Sequence × List ℕ)
utf8_step zero s b = lead b
utf8_step (suc more) s b = trail s more b

pub data Utf8Error : Type 0 where
  utf8_error : Utf8Error

abbrev emit : List ℕ → Result (List ℕ) Utf8Error → Result (List ℕ) Utf8Error
emit out (ok rest) = ok (out ++ rest)
emit out (err e) = err e

utf8_from : Sequence → List ℕ → Result (List ℕ) Utf8Error
utf8_from s [] = if nat_eq s.need 0 then ok [] else err utf8_error
utf8_from s (b ∷ bs) = elim (utf8_step s.need s b) [
  | none ↦ err utf8_error
  | some (s', out) ↦ emit out (utf8_from s' bs)
]

unfoldable pub from_utf8 : List ℕ → Result (List ℕ) Utf8Error
unfolding utf8_from utf8_step lead trail
from_utf8 bytes = utf8_from whole bytes
