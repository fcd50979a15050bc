-- ===== src/JsonRpc/Error.antt =====
-- Error codes and error objects: src/jsonrpc/error.rs.
pub mod Codes
use tower_lsp.Base.{ℕ, ◌-◌, String, Bool, Option, none, some, if◌then◌else◌, ◌==◌}
use tower_lsp.Base.Int.{ℤ, negsuc, ℤ_eq}

-- -n, for n above 0.
abbrev pub neg : ℕ → ℤ
neg n = negsuc (n - 1)

pub data ErrorCode : Type 0 where
  parse_error invalid_request method_not_found invalid_params internal_error : ErrorCode
  server_error : ℤ → ErrorCode
  request_cancelled content_modified : ErrorCode

unfoldable pub code : ErrorCode → ℤ
code parse_error = neg 32700
code invalid_request = neg 32600
code method_not_found = neg 32601
code invalid_params = neg 32602
code internal_error = neg 32603
code request_cancelled = neg 32800
code content_modified = neg 32801
code (server_error n) = n

unfoldable pub description : ErrorCode → String
description parse_error = "Parse error"
description invalid_request = "Invalid request"
description method_not_found = "Method not found"
description invalid_params = "Invalid params"
description internal_error = "Internal error"
description request_cancelled = "Canceled"
description content_modified = "Content modified"
description (server_error n) = "Server error"

unfoldable pub from_i64 : ℤ → ErrorCode
from_i64 n =
    if n == neg 32700
    then parse_error
    else if n == neg 32600
    then invalid_request
    else if n == neg 32601
    then method_not_found
    else if n == neg 32602
    then invalid_params
    else if n == neg 32603
    then internal_error
    else if n == neg 32800
    then request_cancelled
    else if n == neg 32801
    then content_modified
    else server_error n

-- `Value` is the type of JSON values.
pub record Error (Value : Type 0) : Type 0 where
  pub code : ErrorCode
  pub message : String
  pub payload : Option Value

module _ {Value : Type 0} where
  unfoldable pub new : ErrorCode → Error Value
  unfolding description
  new c = record { code = c; message = description c; payload = none }

  unfoldable pub parse_error_object : Error Value
  unfolding new
  parse_error_object = new parse_error

  unfoldable pub invalid_request_object : Error Value
  unfolding new
  invalid_request_object = new invalid_request

  unfoldable pub method_not_found_object : Error Value
  unfolding new
  method_not_found_object = new method_not_found

  unfoldable pub invalid_params_object : String → Error Value
  invalid_params_object message = record {
    code = invalid_params;
    message = message;
    payload = none;
  }

  unfoldable pub internal_error_object : Error Value
  unfolding new
  internal_error_object = new internal_error

  unfoldable pub request_cancelled_object : Error Value
  unfolding new
  request_cancelled_object = new request_cancelled

  unfoldable pub content_modified_object : Error Value
  unfolding new
  content_modified_object = new content_modified

  unfoldable pub not_initialized_error : Error Value
  not_initialized_error = record {
    code = server_error (neg 32002);
    message = "Server not initialized";
    payload = none;
  }
