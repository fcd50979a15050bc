-- ===== src/Client/Socket/Split.antt =====
-- A socket and its halves do the same but for one answer: src/service/client/socket.rs.
use tower_lsp.Base.{
  ◌≡◌, refl, ap, ◌∙◌, List, [], ◌∷◌, arith, Option, none, some, ok, err, inl, inr, Bool-cases, ◌==◌,
  ◌||◌, if◌then◌else◌,
}
use tower_lsp.Base.Options.{◌>>=◌}
use tower_lsp.JsonRpc.Response.{Response}
use tower_lsp.Service.State.{exited, State_eq}
use tower_lsp.Service.Task.{exited_error}
use tower_lsp.Client.Oneshot.{OneshotApi}
use tower_lsp.Client.Waiters.{Pending, insert_response}
use tower_lsp.Client.Socket.{poll_next, poll_socket, poll_sink, start_send}
use tower_lsp.Client.Socket.Halves.{
  ReceiverApi, Operation, next_item, is_ended, ask_size, get_ready, flush, close, send_item,
  elsewhere, Answer, done, ClientSocket, Both, split, socket_step, halves_step, run, next_of_socket,
  after_next, send_to_socket,
}

module _ {Value : Type 0} {channels : OneshotApi (Response Value)}
    {receivers : ReceiverApi Value} where
  abbrev gate_answer :
      Operation channels receivers → Both channels receivers → Answer Value → Answer Value
  gate_answer get_ready (s, k) a =
      if receivers.is_terminated s.rx then done (err exited_error) else a
  gate_answer _ h a = a

  -- The halves, whose sink looks at the channel of requests as well.
  abbrev pub gated_step :
      Operation channels receivers
      → Both channels receivers
      → Option (Answer Value × Both channels receivers)
  unfolding halves_step
  gated_step op h = do (a, h') ← halves_step op h; some (gate_answer op h a, h')

  abbrev pub forget :
      {A : Type 0}
      → Option (A × ClientSocket channels receivers)
      → Option (A × Both channels receivers)
  unfolding split
  forget none = none
  forget (some (a, s)) = some (a, split s)

  send-split :
      (s : ClientSocket channels receivers) (x : Option (Pending channels))
      → forget {A = Answer Value}
          (do (res, s') ← (do p ← x; some (ok tt, record s { pending = p })); some (done res, s'))
        ≡ (do
          (a, h) ← (do
            (p, res) ← (do p' ← x; some (p', ok tt))
            some (done res, ((split s).0, record (split s).1 { pending = p })))
          some (a, h))
  unfolding split
  send-split s none = refl
  send-split s (some q) = refl

  step-split :
      (op : Operation channels receivers) (s : ClientSocket channels receivers)
      → forget (socket_step op s) ≡ gated_step op (split s)
  unfolding socket_step halves_step split poll_socket poll_sink next_of_socket poll_next after_next
      send_to_socket start_send
  step-split next_item s = elim (Bool-cases (s.state == exited || receivers.is_terminated s.rx)) [
    | inl over ↦ rw over refl
    | inr more ↦ rw more refl
  ]
  step-split is_ended s = refl
  step-split ask_size s = refl
  step-split get_ready s = ground arith
  step-split flush s = refl
  step-split close s = refl
  step-split (send_item r) s = send-split s (insert_response r s.pending)
  step-split (elsewhere state p rx) s = refl

  forget-first :
      (a : Answer Value) (y : Option (List (Answer Value) × ClientSocket channels receivers))
      → forget (do (answers, t) ← y; some (a ∷ answers, t))
        ≡ (do (answers, h) ← forget y; some (a ∷ answers, h))
  unfolding split
  forget-first a none = refl
  forget-first a (some q) = refl

  forget-next :
      (ops : List (Operation channels receivers))
      (x : Option (Answer Value × ClientSocket channels receivers))
      → ((s : ClientSocket channels receivers)
          → forget (run socket_step ops s) ≡ run gated_step ops (split s))
      → forget (do (a, s) ← x; (answers, t) ← run socket_step ops s; some (a ∷ answers, t))
        ≡ (do (a, h) ← forget x; (answers, h') ← run gated_step ops h; some (a ∷ answers, h'))
  unfolding split
  forget-next ops none ih = refl
  forget-next ops (some (a, s)) ih =
      forget-first a (run socket_step ops s)
      ∙ ap (λ y. do (answers, h) ← y; some (a ∷ answers, h)) (ih s)

  -- Through any operations, and whatever happens to the state, the waiters and the channel in
  -- between, a client socket and the two halves that `split` makes of it give the same answers,
  -- keep the same parts and panic at the same answer of the client, with one exception: once its
  -- channel of requests is terminated, the whole socket is not ready to send, while the half is
  -- unless the server has exited.
  pub run-split :
      (ops : List (Operation channels receivers)) (s : ClientSocket channels receivers)
      → forget (run socket_step ops s) ≡ run gated_step ops (split s)
  unfolding run split
  run-split [] s = refl
  run-split (op ∷ ops) s =
      forget-next ops (socket_step op s) (run-split ops) ∙ rw (step-split op s) refl
