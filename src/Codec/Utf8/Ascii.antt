-- ===== src/Codec/Utf8/Ascii.antt =====
-- ASCII texts are their own bytes.
use tower_lsp.Base.{ℕ, ◌<◌, ◌≡◌, refl, List, [], ◌∷◌, arith, All, ok}
use tower_lsp.Codec.Utf8.{from_utf8, utf8_from, whole}

abbrev pub IsAscii : List ℕ → Type 0
IsAscii = All (λ c. c < 0x80)

utf8_from-ascii : (cs : List ℕ) → IsAscii cs → utf8_from whole cs ≡ ok cs
unfolding from_utf8
utf8_from-ascii [] h = refl
utf8_from-ascii (c ∷ cs) (small, h) = ground (arith, utf8_from-ascii cs h)

pub from_utf8-ascii : (cs : List ℕ) → IsAscii cs → from_utf8 cs ≡ ok cs
unfolding from_utf8
from_utf8-ascii cs h = utf8_from-ascii cs h
