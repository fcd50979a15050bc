-- ===== src/Codec/Encode/Size.antt =====
-- How much the encoder writes: src/codec.rs.
use tower_lsp.Base.{ℕ, ◌<◌, ◌≡◌, List, [], ◌∷◌, ◌++◌, arith, length, length-append}
use tower_lsp.Base.Text.{codes}
use tower_lsp.Codec.Decimal.{print_usize}
use tower_lsp.Codec.Decimal.Print.{number_of_digits-eq-length}
use tower_lsp.Codec.Encode.{header_of, frame, reserved}

-- The encoder reserves just the space that it fills, for every message but the empty one.
pub length-frame : (msg : List ℕ) → 0 < length msg → length (frame msg) ≡ reserved msg
unfolding frame reserved header_of
length-frame msg p = omega (
  arith,
  length-append (header_of (length msg)) msg,
  length-append (codes "Content-Length: ") (print_usize (length msg) ++ 13 ∷ 10 ∷ 13 ∷ 10 ∷ []),
  length-append (print_usize (length msg)) (13 ∷ 10 ∷ 13 ∷ 10 ∷ []),
  number_of_digits-eq-length (length msg) p,
)
