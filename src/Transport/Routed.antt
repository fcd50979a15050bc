-- ===== src/Transport/Routed.antt =====
-- An answer of the client, from the input to its waiter: src/transport.rs and
-- src/service/client/socket.rs.
use tower_lsp.Base.{
  ℕ, ◌≡◌, refl, sym, subst, ap, ◌∙◌, true, false, List, ◌∷◌, none, some, ok, ◌≢◌, ◌==◌,
}
use tower_lsp.JsonRpc.RequestId.{null}
use tower_lsp.JsonRpc.Json.{Json}
use tower_lsp.JsonRpc.Response.{Response}
use tower_lsp.JsonRpc.Router.{Router}
use tower_lsp.Service.State.{exited, State_eq}
use tower_lsp.Service.Abort.{AbortApi}
use tower_lsp.Service.Lsp.{BoxService}
use tower_lsp.Client.Oneshot.{OneshotApi}
use tower_lsp.Client.Socket.{poll_sink, start_send}
use tower_lsp.Client.Waiters.Order.{
  queue, IsServed, insert_response-IsServed, insert_response-dropped,
}
use tower_lsp.JsonRpc.Message.{response}
use tower_lsp.Transport.Connection.{
  Reader, Reading, reading, panicked, Connection, read, forward, receive, after_send, serve_step,
  when_reading,
}

module _ (json : Json) {api : AbortApi} {channels : OneshotApi (Response json.Value)}
    {S P B R J : Type 0} (router : Router S (BoxService json.Value P B R)) (reader : Reader J)
    (max : ℕ) (k : Connection api channels B R) (res : Response json.Value)
    (reads : k.read_input ≡ reading) (there : k.system.world.state == exited ≡ false) where
  open json use {Value}

  abbrev next : Connection api channels B R
  next = serve_step json router reader max (read (ok (response res))) k

  when_reading-reading :
      (r : Reading Value) (k' : Connection api channels B R)
      → r ≡ reading
      → when_reading json router reader max r k' k ≡ k'
  when_reading-reading reading k' e = refl
  when_reading-reading _ k' e = absurd (cc)

  -- What the step leaves is what the waiters make of the answer.
  next-after_send : next ≡ after_send (start_send res k.waiters) k
  unfolding serve_step receive forward poll_sink
  next-after_send = when_reading-reading k.read_input _ reads ∙ rw (there, poll_sink) refl

  -- While the server reads and has not exited, an answer from the input reaches the waiter that
  -- has waited longest for its identifier, which is not null, if that one's receiver is there
  -- still: it has received the answer, the others behind it wait in the same order, every other
  -- queue is as it was, and the server reads on.
  pub read-IsServed :
      (tx : channels.Sender) (txs : List channels.Sender)
      → res.id ≢ null
      → queue res.id k.waiters ≡ tx ∷ txs
      → channels.is_dropped k.waiters.channels tx ≡ false
      → (next.read_input ≡ reading) × IsServed res.id res tx txs k.waiters next.waiters
  unfolding start_send after_send
  read-IsServed tx txs other first alive =
      let (p, e, served) = insert_response-IsServed res tx txs k.waiters other first alive in
      let sent : start_send res k.waiters ≡ some (p, ok tt) = rw (e, start_send) refl in
      let landed = next-after_send ∙ ap (λ x. after_send x k) sent in
      (
        ap (λ c. c.read_input) landed ∙ reads,
        subst (λ c. IsServed res.id res tx txs k.waiters c.waiters) (sym landed) served,
      )

  pub read-dropped :
      (tx : channels.Sender) (txs : List channels.Sender)
      → res.id ≢ null
      → queue res.id k.waiters ≡ tx ∷ txs
      → channels.is_dropped k.waiters.channels tx ≡ true
      → next.read_input ≡ panicked
  unfolding start_send after_send
  read-dropped tx txs other first gone =
      let e = insert_response-dropped res tx txs k.waiters other first gone in
      let sent : start_send res k.waiters ≡ none = rw (e, start_send) refl in
      ap (λ c. c.read_input) (next-after_send ∙ ap (λ x. after_send x k) sent)
