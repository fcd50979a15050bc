-- ===== src/Transport/Output/Received.antt =====
-- What a client reads from the output of the server: src/transport.rs and src/codec.rs.
use tower_lsp.Base.{ℕ, ◌≡◌, true, List, ◌++◌, some, ok, All, map, length, take}
use tower_lsp.JsonRpc.Json.{Json}
use tower_lsp.JsonRpc.Response.{Response}
use tower_lsp.JsonRpc.Message.{Message}
use tower_lsp.JsonRpc.Router.{Router}
use tower_lsp.Service.Abort.{AbortApi}
use tower_lsp.Service.Lsp.{BoxService}
use tower_lsp.Client.Oneshot.{OneshotApi}
use tower_lsp.Codec.Wire.{Wire}
use tower_lsp.Codec.Decode.{default}
use tower_lsp.Codec.Stream.{IsReadable, decode_times, decode_times-encode_all}
use tower_lsp.Transport.Connection.{Reader, Connection}
use tower_lsp.Transport.Output.{print_nothing, Event, serve_output}
use tower_lsp.Transport.Output.Printed.{responses_in}
use tower_lsp.Transport.Output.Kept.{run-IsPrinted}

module _ (json : Json) {api : AbortApi} {channels : OneshotApi (Response json.Value)}
    {S P B R J : Type 0} (router : Router S (BoxService json.Value P B R)) (reader : Reader J)
    (max : ℕ) (wire : Wire (Message json.Value) J) where
  open json use {Value}

  -- Whatever the input, the schedule and the requests of the client: if each message that the
  -- server has printed is one that serde_json and httparse read back, then a decoder that gets
  -- the bytes of the output, with anything behind them, gives just these messages in their order;
  -- and the responses among them are the first ones of those that were sent to the output, in
  -- their order.
  pub run-decode_times :
      (es : List (Event Value J R)) (k : Connection api channels B R)
      → k.responses_open ≡ true
      → let o = serve_output json router reader max wire es (print_nothing k) in
        All (IsReadable wire) o.printed
        → (rest : List ℕ)
        → (decode_times wire (length o.printed) default (o.written ++ rest)
            ≡ some (map (λ m. ok (some m)) o.printed, default, rest))
          × (responses_in o.printed ≡ take o.taken o.connection.output)
  run-decode_times es k up readable rest =
      let o = serve_output json router reader max wire es (print_nothing k) in
      let h = run-IsPrinted json router reader max wire es k up in
      (decode_times-encode_all wire o.printed o.written rest readable h.encoded_all, h.in_order)
