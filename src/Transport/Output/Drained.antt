-- ===== src/Transport/Output/Drained.antt =====
-- The end of `print_output`: src/transport.rs.
use tower_lsp.Base.{
  ℕ, zero, suc, ◌+◌, ◌-◌, ◌<◌, ◌≡◌, refl, subst, inl, inr, ◌⊎◌, Bool, true, false, not, ◌&&◌, ◌||◌,
  List, [], ◌∷◌, none, some, ok, length, get_elem?, Bool-cases, arith, ◌==◌,
}
use tower_lsp.JsonRpc.Json.{Json}
use tower_lsp.JsonRpc.Response.{Response}
use tower_lsp.JsonRpc.Message.{Message, response}
use tower_lsp.JsonRpc.Router.{Router}
use tower_lsp.Service.State.{exited, State_eq}
use tower_lsp.Service.Abort.{AbortApi}
use tower_lsp.Service.Task.{pending}
use tower_lsp.Service.Lsp.{BoxService}
use tower_lsp.Client.Oneshot.{OneshotApi}
use tower_lsp.Client.Socket.{poll_next}
use tower_lsp.Codec.Wire.{Wire}
use tower_lsp.Codec.Encode.{encode}
use tower_lsp.Transport.Completion.{is_output_printed, are_tasks_processed}
use tower_lsp.Transport.Connection.{Reader, Connection}
use tower_lsp.Codec.Appended.{encode_ok}
use tower_lsp.Transport.Output.Positions.{past_end, get_some}
use tower_lsp.Transport.Output.Printed.{responses_in, IsPrinted}
use tower_lsp.Transport.Output.Kept.{output_step-IsPrinted, serve_output-IsPrinted, run-IsPrinted}
use tower_lsp.Transport.Output.Over.{
  HasEndedWith, IsOver, output_step-IsOver, serve_output-IsOver, all_printed,
}
use tower_lsp.Transport.Output.{
  forwarding, ended, Output, print_nothing, Event, served, print_response, print_request,
  output_failed, end_forward, is_closed, take_response, take_request, poll_responses, poll_requests,
  output_step, serve_output,
}

-- Polls of the responses that are left, of the end behind them, and of the client's requests.
abbrev pub drain : {Value J R : Type 0} → ℕ → List (Event Value J R)
drain zero = print_response ∷ print_request false (pending tt) ∷ []
drain (suc n) = print_response ∷ drain n

and_true : (a b : Bool) → (a && b) ≡ true → (a ≡ true) × (b ≡ true)
and_true a b h = ground arith

module _ {Value : Type 0} {api : AbortApi} {channels : OneshotApi (Response Value)}
    {B R : Type 0} where
  abbrev Left : Output api channels B R → Type 0
  Left o = (o.print_output ≡ forwarding) ⊎ (o.print_output ≡ ended)

  printed_parts :
      (k : Connection api channels B R)
      → is_output_printed k ≡ true
      → (is_closed k ≡ true) × ((k.requests_aborted || k.system.world.state == exited) ≡ true)
  unfolding is_output_printed is_closed
  printed_parts k h =
      and_true (not k.responses_open && are_tasks_processed k)
        (k.requests_aborted || k.system.world.state == exited) h

module _ (json : Json) {api : AbortApi} {channels : OneshotApi (Response json.Value)}
    {S P B R J : Type 0} (router : Router S (BoxService json.Value P B R)) (reader : Reader J)
    (max : ℕ) (wire : Wire (Message json.Value) J) where
  open json use {Value}

  module _ (o : Output api channels B R) (on : o.print_output ≡ forwarding) where
    print_next :
        (r : Response Value) (dst : List ℕ)
        → o.responses_ended ≡ false
        → get_elem? o.connection.output o.taken ≡ some r
        → encode wire (response r) o.written ≡ ok dst
        → let o' = output_step json router reader max wire print_response o in
          (o'.print_output ≡ forwarding) × (o'.taken ≡ suc o.taken) × (o'.connection ≡ o.connection)
    unfolding output_step poll_responses take_response
    print_next r dst more at e = ground arith

    last_response :
        get_elem? o.connection.output o.taken ≡ none
        → is_closed o.connection ≡ true
        → let o' = output_step json router reader max wire print_response o in
          (o'.responses_ended ≡ true) × (o'.connection ≡ o.connection) × Left o'
    unfolding output_step poll_responses take_response end_forward
    last_response at closed =
        let rest : Left (output_step json router reader max wire print_response o) =
          elim (Bool-cases o.responses_ended) [
            | inl over ↦ inl (ground arith)
            | inr more ↦ elim (Bool-cases o.requests_ended) [
              | inl both ↦ inr (ground arith)
              | inr one ↦ inl (ground arith)
            ]
          ] in
        (ground arith, ground arith, rest)

    last_request :
        o.responses_ended ≡ true
        → o.requests_ended ≡ false
        → (o.connection.requests_aborted || o.connection.system.world.state == exited) ≡ true
        → (output_step json router reader max wire
            (print_request false (pending tt))
            o).print_output
          ≡ ended
    unfolding output_step poll_requests take_request end_forward poll_next
    last_request over more gone = ground arith

  not_over :
      (o : Output api channels B R)
      → IsPrinted wire o
      → o.taken < length o.connection.output
      → o.responses_ended ≡ false
  not_over o h lt = elim (Bool-cases o.responses_ended) [
    | inl over ↦ absurd (omega (arith, h.complete over))
    | inr more ↦ more
  ]

  abbrev Drains : Output api channels B R → Type 0
  Drains o = IsPrinted wire o × IsOver o × (is_output_printed o.connection ≡ true)

  output_step-Drains :
      (e : Event Value J R) (o : Output api channels B R)
      → (output_step json router reader max wire e o).connection ≡ o.connection
      → Drains o
      → Drains (output_step json router reader max wire e o)
  output_step-Drains e o same (h, over, out) = (
    output_step-IsPrinted json router reader max wire e o h,
    output_step-IsOver json router reader max wire e o over,
    rw same out,
  )

  stays_ended :
      (e : Event Value J R) (o : Output api channels B R)
      → o.print_output ≡ ended
      → (output_step json router reader max wire e o).print_output ≡ ended
  unfolding output_step
  stays_ended (served e) o h = rw h refl
  stays_ended print_response o h = rw h refl
  stays_ended (print_request t p) o h = rw h refl
  stays_ended output_failed o h = rw h refl

  last_events :
      (o : Output api channels B R)
      → Left o
      → o.responses_ended ≡ true
      → Drains o
      → (output_step json router reader max wire (print_request false (pending tt)) o).print_output
        ≡ ended
  last_events o (inr done) over d = stays_ended _ o done
  last_events o (inl on) over (h, w, out) =
      let both : (o.responses_ended && o.requests_ended) ≡ false =
        subst (λ p. HasEndedWith p (o.responses_ended && o.requests_ended)) on w in
      let (_, gone) = printed_parts o.connection out in last_request o on over (ground arith) gone

  module _
      (encodes : (r : Response Value)
        → (msg : List ℕ) × (wire.to_string (response r) ≡ ok msg)) where
    drain_ends :
        (n : ℕ) (o : Output api channels B R)
        → o.print_output ≡ forwarding
        → Drains o
        → o.taken + n ≡ length o.connection.output
        → (serve_output json router reader max wire (drain n) o).print_output ≡ ended
    unfolding serve_output
    drain_ends zero o on d e =
        let (closed, _) = printed_parts o.connection d.2 in
        let (over, same, left) =
          last_response o on (past_end o.connection.output o.taken (omega (arith, e))) closed in
        last_events _ left over (output_step-Drains print_response o same d)
    drain_ends (suc n) o on d e =
        let (r, at) = get_some o.connection.output o.taken (omega (arith, e)) in
        let more = not_over o d.0 (omega (arith, e)) in
        let (msg, prints) = encodes r in
        let (on', next, same) =
          print_next o on r _ more at (encode_ok wire (response r) o.written prints) in
        drain_ends n _ on' (output_step-Drains print_response o same d)
          (rw same (omega (arith, next, e)))

    -- If every response can be encoded, and `print_output` still forwards when all senders of
    -- responses have disconnected and the requests of the client are aborted or the server has
    -- exited, then polls of the responses that are left, one more of each of the two streams, end
    -- it: every response that was sent has been printed, in order.
    pub run_drained :
        (es : List (Event Value J R)) (k : Connection api channels B R)
        → k.responses_open ≡ true
        → let o = serve_output json router reader max wire es (print_nothing k) in
          o.print_output ≡ forwarding
          → is_output_printed o.connection ≡ true
          → let o' =
              serve_output json router reader max wire
                (drain (length o.connection.output - o.taken))
                o in
            (o'.print_output ≡ ended) × (responses_in o'.printed ≡ o'.connection.output)
    unfolding print_nothing
    run_drained es k up on out =
        let o = serve_output json router reader max wire es (print_nothing k) in
        let h = run-IsPrinted json router reader max wire es k up in
        let w = serve_output-IsOver json router reader max wire es (print_nothing k) refl in
        let polls = drain (length o.connection.output - o.taken) in
        let done =
          drain_ends (length o.connection.output - o.taken) o on (h, w, out)
            (omega (arith, h.bound)) in
        (
          done,
          all_printed json router reader max wire _
              (serve_output-IsPrinted json router reader max wire polls o h)
              (serve_output-IsOver json router reader max wire polls o w) done,
        )
