-- ===== src/Codec/Encode.antt =====
-- The encoder: src/codec.rs.
pub mod Size
pub mod RoundTrip
use tower_lsp.Base.{ℕ, ◌+◌, List, [], ◌∷◌, ◌++◌, Result, ok, err, map_err, ◌>>=◌, length}
use tower_lsp.Base.Text.{codes}
use tower_lsp.Codec.Decimal.{print_usize, number_of_digits}
use tower_lsp.Codec.Headers.{ParseError, body}
use tower_lsp.Codec.Wire.{Wire}

-- What `write!` writes in front of a message of this many bytes.
unfoldable pub header_of : ℕ → List ℕ
header_of len = codes "Content-Length: " ++ (print_usize len ++ (13 ∷ 10 ∷ 13 ∷ 10 ∷ []))

unfoldable pub frame : List ℕ → List ℕ
unfolding header_of
frame msg = header_of (length msg) ++ msg

-- The argument of `dst.reserve`.
unfoldable pub reserved : List ℕ → ℕ
unfolding number_of_digits
reserved msg = length msg + number_of_digits (length msg) + 20

-- The buffer behind `encode`; writing to memory does not fail.
unfoldable pub encode : {T J : Type 0} → Wire T J → T → List ℕ → Result (List ℕ) (ParseError J)
unfolding frame
encode wire item dst = do msg ← map_err body (wire.to_string item); ok (dst ++ frame msg)
