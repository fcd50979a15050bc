-- ===== src/JsonRpc/Document.antt =====
-- What the program takes from serde and serde_json to read and write messages: JSON documents and
-- their texts. An object has its members in the order of the text, as serde's derived code meets them.
use tower_lsp.Base.{ℕ, String, ◌≡◌, Bool, List, Option}
use tower_lsp.Base.Int.{ℤ}

-- `V` is the type of documents, `F` that of the numbers that are no integers.
pub data Shape (V F : Type 0) : Type 0 where
  null : Shape V F
  boolean : Bool → Shape V F
  integer : ℤ → Shape V F
  float : F → Shape V F
  text : String → Shape V F
  array : List V → Shape V F
  object : List (String × V) → Shape V F

pub record SerdeJson : Type 1 where
  pub Value : Type 0
  pub Float : Type 0
  pub make : Shape Value Float → Value
  pub shape : Value → Shape Value Float
  pub shape-make : (s : Shape Value Float) → shape (make s) ≡ s
  -- `from_str`, of code points, and `to_string`, as bytes
  pub parse : List ℕ → Option Value
  pub print : Value → List ℕ
