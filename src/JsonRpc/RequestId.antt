-- ===== src/JsonRpc/RequestId.antt =====
-- Request identifiers, `Id` in the source, and the protocol version: src/jsonrpc.rs.
use tower_lsp.Base.{
  String, ◌≡◌, ◌↔◌, Bool, true, false, arith, Eq, ◌==◌, eq_iff, if◌then◌else◌, Result, ok, err,
  String_eq,
}
use tower_lsp.Base.Int.{ℤ, ℤ_eq}

pub data RequestId : Type 0 where
  number : ℤ → RequestId
  string : String → RequestId
  null : RequestId

abbrev pub id_eq : RequestId → RequestId → Bool
id_eq (number a) (number b) = a == b
id_eq (string a) (string b) = a == b
id_eq null null = true
id_eq _ _ = false

pub id_eq_iff : (a b : RequestId) → (id_eq a b ≡ true) ↔ (a ≡ b)
id_eq_iff (number a) (number b) = ground (arith, eq_iff a b)
id_eq_iff (string a) (string b) = ground (arith, eq_iff a b)
id_eq_iff _ _ = ground arith

instance abbrev pub Id_eq : Eq RequestId
Id_eq = record { test = id_eq; decides = id_eq_iff }

-- The identifier of a `$/cancelRequest` notification.
pub data NumberOrString : Type 0 where
  number : ℤ → NumberOrString
  string : String → NumberOrString

unfoldable pub from_number_or_string : NumberOrString → RequestId
from_number_or_string (NumberOrString.number num) = RequestId.number num
from_number_or_string (NumberOrString.string s) = RequestId.string s

pub data Version : Type 0 where
  version : Version

-- The text that follows `"jsonrpc":`.
unfoldable pub deserialize_version : String → Result Version String
deserialize_version ver =
    if ver == "2.0" then ok version else err "expected JSON-RPC version \"2.0\""

unfoldable pub serialize_version : Version → String
serialize_version version = "2.0"
