-- ===== src/Client/Requests/Answered.antt =====
-- How a request to the client ends: src/service/client.rs and src/service/client/pending.rs.
use tower_lsp.Base.{
  ◌≡◌, refl, sym, ◌++◌, ◌∙◌, ap, ◌≢◌, String, false, [], ◌∷◌, none, some, Result, ok, err,
}
use tower_lsp.JsonRpc.RequestId.{RequestId, null}
use tower_lsp.JsonRpc.Error.{Error, not_initialized_error}
use tower_lsp.JsonRpc.Response.{Response, from_parts}
use tower_lsp.Service.State.{State, initialized, shut_down}
use tower_lsp.Client.Oneshot.{OneshotApi}
use tower_lsp.Client.Waiters.{Pending, wait, insert_response}
use tower_lsp.Client.Waiters.Order.{queue, queue-wait, insert_response-IsServed}
use tower_lsp.Client.Requests.{Client, can_send, send_request, send_notification}

stopped_in : (s : State) → s ≢ initialized → s ≢ shut_down → can_send s ≡ false
unfolding can_send
stopped_in initialized a b = absurd (a refl)
stopped_in shut_down a b = absurd (b refl)
stopped_in _ a b = refl

pub id-from_parts :
    {Value : Type 0} (id : RequestId) (body : Result Value (Error Value))
    → (from_parts id body).id ≡ id
unfolding from_parts
id-from_parts id (ok v) = refl
id-from_parts id (err e) = refl

module _ {Value : Type 0} {api : OneshotApi (Response Value)} where
  pub insert_response-waited :
      (id : RequestId) (r : Response Value) (p : Pending api)
      → r.id ≡ id
      → id ≢ null
      → queue id p ≡ []
      → (p' : Pending api) × (insert_response r (wait id p).1 ≡ some p')
        × (api.received p'.channels (wait id p).0 ≡ some r)
  unfolding wait
  insert_response-waited id r p e other none_waits =
      let waits : queue r.id (wait id p).1 ≡ (wait id p).0 ∷ [] =
        ap (λ j. queue j (wait id p).1) e
        ∙ (queue-wait id p).0
        ∙ ap (λ q. q ++ (wait id p).0 ∷ []) none_waits in
      let (p', inserted, served) =
        insert_response-IsServed r (wait id p).0 [] (wait id p).1 (λ n. other (sym e ∙ n)) waits
          (api.channel_alive p.channels) in
      (p', inserted, served.answered)

  -- Before the server is initialized and after it has exited, `send_request` returns the "server
  -- not initialized" error at once and `send_notification` suppresses its message; neither uses
  -- up an identifier or registers a waiter.
  pub send_request_early :
      (name : String) (params : Value) (c : Client api)
      → c.state ≢ initialized
      → c.state ≢ shut_down
      → (send_request name params c ≡ (err not_initialized_error, c))
        × (send_notification name params c ≡ (none, c))
  unfolding send_request send_notification
  send_request_early name params c early late =
      let stopped : can_send c.state ≡ false = stopped_in c.state early late in
      (rw (stopped) refl, rw (stopped) refl)
