-- ===== src/JsonRpc/Json.antt =====
-- What the program takes from serde_json: JSON values, of which it builds and reads texts only.
use tower_lsp.Base.{String, ◌≡◌, Option, some}

pub record Json : Type 1 where
  pub Value : Type 0
  -- `Value::from(s)` and the pattern `Value::String(s)`
  pub from_string : String → Value
  pub as_string : Value → Option String
  -- `to_string()`
  pub display : Value → String
  pub as_string-from_string : (s : String) → as_string (from_string s) ≡ some s
