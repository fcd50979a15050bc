-- ===== src/Transport/Built.antt =====
-- The server loop over the service that `LspService::build` makes: src/transport.rs and
-- src/service.rs.
use mathlib.Core.List.{Perm}
use tower_lsp.Base.{
  ◌++◌, ℕ, ◌<◌, ◌≡◌, ◌≢◌, inl, inr, String, List, [], ◌∷◌, Option, some, get_elem?, length, All, ok,
  ok,
}
use tower_lsp.JsonRpc.Json.{Json}
use tower_lsp.JsonRpc.Request.{Request}
use tower_lsp.JsonRpc.Response.{Response}
use tower_lsp.Service.State.{State, initialized, exited}
use tower_lsp.Service.Abort.{AbortApi}
use tower_lsp.Service.World.{World}
use tower_lsp.Service.Lifecycle.Gate.{Refuses}
use tower_lsp.Service.Methods.{MethodCall, Server, Reply, parse_method_calls}
use tower_lsp.Service.Methods.Table.{language_server}
use tower_lsp.Service.Methods.Builder.{CustomHandler}
use tower_lsp.Service.Methods.Serving.{built, built_refused, built-IsGoodRouter, AreAnswering}
use tower_lsp.Client.Oneshot.{OneshotApi}
use tower_lsp.Client.Waiters.{Pending}
use tower_lsp.JsonRpc.Message.{request}
use tower_lsp.Transport.Connection.{
  Reader, reading, Connection, Step, read, polled, serve, connect, running_before,
}
use tower_lsp.Transport.Answers.{IsAnswerTo, IsRead, answers-IsCaused}
use tower_lsp.Transport.Sequential.{answers}
use tower_lsp.Transport.Trace.{failures}
use tower_lsp.Transport.Once.{connect-IsComplete}
use tower_lsp.Transport.Refused.{IsClosed, HasRefused, serve-HasRefused}

closed_initialized : (s : State) → IsClosed s → s ≢ initialized
closed_initialized s (inl e) f = cc
closed_initialized s (inr e) f = cc

closed_exited : (s : State) → IsClosed s → s ≢ exited
closed_exited s (inl e) f = cc
closed_exited s (inr e) f = cc

module _ (json : Json) {V A B : Type 0} (server : Server json V A B) {S J : Type 0} (inner : S)
    (customs : List (String × CustomHandler json server)) (reader : Reader J) (max : ℕ)
    (api : AbortApi) (channels : OneshotApi (Response json.Value)) where
  open json use {Value}

  -- On a server with the service that `LspService::build` makes, with any custom methods that
  -- answer by instances of `IntoResponse`: whatever the input and the schedule, what is written
  -- is a permutation of the answers with the null identifier to the messages that could not be
  -- decoded, one for each of these that was read, and of what the tasks have ended in, each once;
  -- and each of the latter has the identifier of a request that was read.
  pub built-output-IsCaused :
      (es : List (Step Value J (Reply json server))) (w : World api) (p : Pending channels)
      → AreAnswering json server customs
      → let router = built json server inner customs in
        let k = connect w p in
        let k' = serve json router reader max es k in
        Perm k'.output (failures json router reader max es k [] ++ answers k'.system.slots)
        × All (IsAnswerTo (IsRead es)) (answers k'.system.slots)
  built-output-IsCaused es w p a =
      let router = built json server inner customs in
      (
        connect-IsComplete json router reader max es w p,
        answers-IsCaused json router reader max (built-IsGoodRouter json server inner customs api a)
            es w p,
      )

  -- On a server with the service that `LspService::build` makes, with any custom methods, which
  -- reads, has room for one more task, and is in the state before initialization or after
  -- shutdown: after a request of any method of the trait `LanguageServer` but `initialize` is
  -- read and its task is polled once, the output has grown by the refusal, and the world is as it
  -- was. A request gets the error -32002 before initialization and -32600 after shutdown, under
  -- its identifier, and a notification nothing.
  pub built-serve_refused :
      (i : ℕ) (c : MethodCall) (req : Request Value) (answer : Option (Reply json server))
      (k : Connection api channels B (Reply json server))
      → get_elem? (parse_method_calls language_server) i ≡ some c
      → c.rpc_name ≢ "initialize"
      → req.method ≡ c.rpc_name
      → IsClosed k.system.world.state
      → k.read_input ≡ reading
      → running_before (length k.system.slots) k.system.slots < max
      → (res : Option (Response Value)) × Refuses req.id k.system.world.state res
        × HasRefused json (built json server inner customs) reader max k req res (
            serve json
              (built json server inner customs)
              reader
              max
              (read (ok (request req)) ∷ polled (length k.system.slots) answer ∷ [])
              k)
  built-serve_refused i c req answer k there other named closed r room =
      let w = k.system.world in
      let (res, e, refused) =
        built_refused json server inner customs api i c req w there other named
          (closed_initialized w.state closed) (closed_exited w.state closed) in
      (
        res,
        refused,
        serve-HasRefused json (built json server inner customs) reader max k req res answer e r
            closed room refused,
      )
