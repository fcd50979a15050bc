-- ===== src/JsonRpc/Message.antt =====
-- Incoming and outgoing messages: src/jsonrpc.rs.
use tower_lsp.JsonRpc.Request.{Request}
use tower_lsp.JsonRpc.Response.{Response}

pub data Message (Value : Type 0) : Type 0 where
  response : Response Value → Message Value
  request : Request Value → Message Value
