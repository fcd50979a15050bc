-- ===== src/Codec/Wire.antt =====
-- What the codec takes from httparse, memchr and serde_json.
use tower_lsp.Base.{ℕ, ◌+◌, ◌≤◌, ◌≡◌, List, Option, some, Result, length}
use tower_lsp.Codec.Headers.{Header}

pub data Status : Type 0 where
  -- the length of the headers with the empty line behind them, and the headers
  complete : ℕ → List Header → Status
  partial : Status

pub data HeadersError : Type 0 where
  headers_error : HeadersError

-- `T` is the type of messages, `J` that of the errors of serde_json.
pub record Wire (T J : Type 0) : Type 0 where
  -- `httparse::parse_headers`, with room for two headers
  pub parse_headers : List ℕ → Result Status HeadersError
  -- `memmem::find`, in a buffer, for a text
  pub find : List ℕ → List ℕ → Option ℕ
  -- `serde_json::from_str`, of code points, and `serde_json::to_string`, as bytes
  pub from_str : List ℕ → Result T J
  pub to_string : T → Result (List ℕ) J

-- What the documentation of httparse and of memchr says of the numbers that they return.
pub record IsBounded {T J : Type 0} (wire : Wire T J) : Type 0 where
  pub parsed :
      (src : List ℕ) (n : ℕ) (hs : List Header)
      → wire.parse_headers src ≡ Result.ok (complete n hs)
      → n ≤ length src
  pub found :
      (src needle : List ℕ) (k : ℕ) → wire.find src needle ≡ some k → k + length needle ≤ length src
