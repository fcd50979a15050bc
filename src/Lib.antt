-- ===== src/Lib.antt =====
-- tower-lsp: language servers as services that take JSON-RPC messages.
--
-- The program has a codec, which finds messages in the bytes of a stream and writes them; a router,
-- which finds the handler of a method; layers around the handlers, which let a method through or
-- refuse it by the state of the server and which make requests cancellable; and the service, which
-- puts these together. A call of the service changes the shared state and hands out a future, and
-- futures are polled in any order. The server loop reads messages, runs those futures and writes
-- their answers, while the service sends messages of its own through the client. The models of
-- these parts:
--
--   Base            types and lemmas that all parts share: results, lists with native lengths,
--                   maps as association lists, texts as code points
--   JsonRpc.RequestId, JsonRpc.Error, JsonRpc.Request, JsonRpc.Response
--                   src/jsonrpc.rs, src/jsonrpc/error.rs, src/jsonrpc/request.rs and
--                   src/jsonrpc/response.rs, with the source's types; a 64-bit number is an integer
--                   here, as the program only compares and passes on such numbers
--   JsonRpc.Message, JsonRpc.Serialize, JsonRpc.Deserialize
--                   the messages of src/jsonrpc.rs, and how they and their parts are written and read
--                   as JSON: what serde derives from the attributes of the types in these files.
--                   `JsonRpc.Members` takes the fields of a struct from an object
--   JsonRpc.Router  src/jsonrpc/router.rs. `method` is `Router::method`, `route` is `Router::call` up
--                   to the handler, `call_handler` is `MethodHandler::call`. The traits `FromParams`
--                   and `IntoResponse` are records, of which `no_params`, `required_params`,
--                   `unit_response` and `result_response` are the instances
--   Service.State   src/service/state.rs
--   Service.Pending src/service/pending.rs: `execute`, `cancel` and `cancel_all` on the table of
--                   abort handles, which stands in the record `World` with the state and the flags
--   Service.Layers  src/service/layers.rs: `call_initialize`, `call_shutdown`, `call_normal` and
--                   `call_exit`, and `call_cancellable` for `Cancellable::call`
--   Service.Task, Service.Polling
--                   the futures of these files as a data type, with a constructor for each `async`
--                   block and a field for what it has captured; `poll` runs one up to its next wait
--   Service.Lsp, Service.System
--                   src/service.rs: `call` is `LspService::call`; `step` and `run` are the calls and
--                   polls that src/transport.rs makes, in an order that is left open
--   Service.Methods the trait `LanguageServer` of src/lib.rs with the registration that
--                   tower-lsp-macros/src/lib.rs generates from it, and the router that
--                   `LspService::build` and `custom_method` of src/service.rs fill.
--                   `Service.Methods.Assembly` is the builder, and the service with what it shares
--   Client.Waiters  src/service/client/pending.rs: `wait` and `insert_response`, which is `insert`
--   Client.Requests src/service/client.rs: `send_request`, `send_notification` and the future of
--                   `Client::call`; what becomes of a message in the channel is given at each poll
--   Client.Methods  the methods of `Client` that send one message each; `Client.Invocations` has
--                   them as data
--   Client.Socket   src/service/client/socket.rs: `ClientSocket` and the halves of `split`, with the
--                   operations of their traits as data
--   Client.Progress src/service/client/progress.rs: the builder and the stream of `$/progress`,
--                   indexed by what the phantom types name. The client is an argument of each
--                   operation
--   Transport.Server, Transport.Failure
--                   src/transport.rs: `Server` before it runs, `to_jsonrpc_error` and
--                   `display_sources`, with the texts of `ParseError` in src/codec.rs
--   Transport.Connection, Transport.Completion
--                   `Server::serve` of src/transport.rs: `serve_step` is a step of one of the three
--                   futures that are joined (an item of the input, its end, a poll of a task), `serve`
--                   is any sequence of steps, and `is_served` says whether all three have ended.
--                   `Transport.Trace` describes what the steps have to do to the service
--   Transport.Output
--                   `print_output` beside these: `output_step` is a step of another future, a poll of
--                   one of the two streams that are merged, or an error of the output
--   Codec           src/codec.rs: `decode` and `encode` over lists of bytes. `none` is a panic of
--                   `BytesMut::advance`. UTF-8 and decimal numbers are those of Rust's library.
--                   `Codec.Messages` is the codec with the messages of JsonRpc
--   Examples        the backends of examples/tcp.rs, examples/stdio.rs, examples/websocket.rs
--                   (`Examples.Backend`) and examples/custom_notification.rs. A method is a
--                   `Script` of calls of the client, and a poll of a call is an event of its own
--
-- Parameters, with what their documentation says as laws: `futures::future::abortable` is
-- `Service.Abort.AbortApi`, `futures::channel::oneshot` is `Client.Oneshot.OneshotApi`, a
-- receiver of `futures::channel::mpsc` is `Client.Socket.Halves.ReceiverApi`, serde_json is
-- `JsonRpc.Json.Json`, `JsonRpc.Document.SerdeJson` and part of `Codec.Wire.Wire`, and httparse
-- and memchr are the rest of `Codec.Wire.Wire`. `Transport.Connection.Reader` says whether
-- `FramedRead` gives the end of its stream behind an error of the decoder, as that of tokio-util
-- does, or goes on. The types of lsp_types and their JSON are
-- `Client.Methods.LspTypes`, `Examples.Script.ExampleTypes` and the arguments `to_value`.
-- `buffer_unordered` starts tasks in their order, and has a task in progress where fewer than its
-- limit of earlier ones are running. The backend is the type of its futures, and each poll is
-- given what the backend's future ends in, or that it goes on waiting. The concurrent map of the
-- table is a map: each of its operations is one step here.
--
-- Fuel: `print_digits` and `number_of_digits` run on the number itself, which is at least its number
-- of digits. Everything else is by structural recursion; `decode`, which calls itself once, has the
-- inner call written out.
--
-- Not modelled: logging; which error serde_json gives; the bounds of the channels in
-- src/transport.rs, which only delay a sender; executors; the `main` functions of the examples, which
-- read arguments, open sockets and start a runtime. A future that is dropped before it ends is one
-- that is not polled again.
mod Base
pub mod Client
pub mod Codec
pub mod JsonRpc
pub mod Service
pub mod Examples
pub mod Transport
