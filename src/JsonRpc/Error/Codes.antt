-- ===== src/JsonRpc/Error/Codes.antt =====
-- The numbers of the error codes: src/jsonrpc/error.rs.
use tower_lsp.Base.{◌≡◌, ◌≢◌, ◌↔◌, arith}
use tower_lsp.Base.Int.{ℤ}
use tower_lsp.JsonRpc.Error.{ErrorCode, server_error, code, from_i64, neg}

-- A number that stands for itself, not for one of the named codes.
abbrev pub IsUnreserved : ℤ → Type 0
IsUnreserved n =
    (n ≢ neg 32700)
    × (n ≢ neg 32600)
    × (n ≢ neg 32601)
    × (n ≢ neg 32602)
    × (n ≢ neg 32603)
    × (n ≢ neg 32800)
    × (n ≢ neg 32801)

abbrev pub IsCanonical : ErrorCode → Type 0
IsCanonical (server_error n) = IsUnreserved n
IsCanonical _ = Unit

-- Every number survives a trip through an error code.
pub code-from_i64 : (n : ℤ) → code (from_i64 n) ≡ n
unfolding code from_i64
code-from_i64 n = ground arith

-- What is read is never a server error that hides a named code.
pub from_i64-IsCanonical : (n : ℤ) → IsCanonical (from_i64 n)
unfolding from_i64
from_i64-IsCanonical n = ground arith

-- An error code is read back from its number exactly if it is not a server error that carries the
-- number of a named code.
pub from_i64-code : (c : ErrorCode) → (from_i64 (code c) ≡ c) ↔ IsCanonical c
unfolding code from_i64
from_i64-code (server_error n) = ground arith
from_i64-code _ = ground arith
