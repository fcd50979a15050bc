-- ===== src/Transport/Output/Over.antt =====
-- When `print_output` has ended: src/transport.rs.
use tower_lsp.Base.{
  ℕ, zero, suc, ◌≤◌, ◌≡◌, refl, sym, ap, ◌∙◌, subst, inl, inr, Bool, true, false, ◌&&◌, List, [],
  ◌∷◌, Option, none, some, ok, err, Result, length, take, Bool-cases, arith, if◌then◌else◌, nat_eq,
}
use tower_lsp.JsonRpc.Json.{Json}
use tower_lsp.JsonRpc.Request.{Request}
use tower_lsp.JsonRpc.Response.{Response}
use tower_lsp.JsonRpc.Message.{Message, response, request}
use tower_lsp.JsonRpc.Router.{Router}
use tower_lsp.Service.State.{State_eq}
use tower_lsp.Service.Abort.{AbortApi}
use tower_lsp.Service.Task.{Poll, pending, ready}
use tower_lsp.Service.Lsp.{BoxService}
use tower_lsp.Client.Oneshot.{OneshotApi}
use tower_lsp.Codec.Headers.{ParseError}
use tower_lsp.Codec.Wire.{Wire}
use tower_lsp.Codec.Encode.{encode}
use tower_lsp.Transport.Connection.{Reader, Connection}
use tower_lsp.Transport.Output.Printed.{responses_in, IsPrinted}
use tower_lsp.Transport.Output.Kept.{run-IsPrinted}
use tower_lsp.Transport.Output.{
  Printer, forwarding, ended, failed, panicked, Output, print_nothing, Event, served,
  print_response, print_request, output_failed, when_forwarding, end_forward, encoded, is_closed,
  take_response, take_request, poll_responses, poll_requests, after_step, output_step, serve_output,
}

take_all : {A : Type 0} (xs : List A) (n : ℕ) → length xs ≤ n → take n xs ≡ xs
take_all [] zero h = refl
take_all [] (suc n) h = refl
take_all (x ∷ xs) zero h = absurd (omega arith)
take_all (x ∷ xs) (suc n) h = ap (◌∷◌ x) (take_all xs n (omega arith))

-- `print_output` has ended just in case both of its streams have.
abbrev pub HasEndedWith : Printer → Bool → Type 0
HasEndedWith forwarding both = both ≡ false
HasEndedWith ended both = both ≡ true
HasEndedWith _ both = Unit

module _ {Value : Type 0} {api : AbortApi} {channels : OneshotApi (Response Value)}
    {B R : Type 0} where
  abbrev pub IsOver : Output api channels B R → Type 0
  IsOver o = HasEndedWith o.print_output (o.responses_ended && o.requests_ended)

  end_forward-IsOver :
      (o : Output api channels B R) → o.print_output ≡ forwarding → IsOver (end_forward o)
  unfolding end_forward
  end_forward-IsOver o on = elim (Bool-cases (o.responses_ended && o.requests_ended)) [
    | inl both ↦ rw both both
    | inr more ↦ rw more (rw on more)
  ]

  if_IsOver :
      (b : Bool) (o o' : Output api channels B R)
      → IsOver o
      → IsOver o'
      → IsOver (if b then o else o')
  if_IsOver true o o' g h = g
  if_IsOver false o o' g h = h

  when_forwarding-IsOver :
      (p : Printer) (next o : Output api channels B R)
      → p ≡ o.print_output
      → (o.print_output ≡ forwarding → IsOver next)
      → IsOver o
      → IsOver (when_forwarding p next o)
  when_forwarding-IsOver forwarding next o e g h = g (sym e)
  when_forwarding-IsOver ended next o e g h = h
  when_forwarding-IsOver failed next o e g h = h
  when_forwarding-IsOver panicked next o e g h = h

  after_step-IsOver :
      (p : Printer) (k : Connection api channels B R) (o : Output api channels B R)
      → IsOver o
      → IsOver (after_step p k o)
  after_step-IsOver forwarding k o h = h
  after_step-IsOver ended k o h = h
  after_step-IsOver panicked k o h = h
  after_step-IsOver failed k o h =
      if_IsOver (nat_eq (length k.output) (length o.connection.output))
        (record o { connection = k }) (record o { print_output = panicked }) h tt

module _ {Value J : Type 0} {api : AbortApi} {channels : OneshotApi (Response Value)} {B R : Type 0}
    (wire : Wire (Message Value) J) where
  encoded-IsOver :
      (r : Result (List ℕ) (ParseError J)) (m : Message Value) (next o : Output api channels B R)
      → IsOver next
      → IsOver (encoded r m next o)
  encoded-IsOver (ok dst) m next o h = h
  encoded-IsOver (err e) m next o h = tt

  module _ (o : Output api channels B R) (on : o.print_output ≡ forwarding) (h : IsOver o) where
    take_response-IsOver : (s : Option (Response Value)) → IsOver (take_response wire s o)
    unfolding take_response
    take_response-IsOver none = elim (Bool-cases (is_closed o.connection)) [
      | inl shut ↦ rw shut (end_forward-IsOver (record o { responses_ended = true }) on)
      | inr alive ↦ rw alive h
    ]
    take_response-IsOver (some r) =
        encoded-IsOver (encode wire (response r) o.written) (response r) _ o h

    take_request-IsOver :
        (r : Poll (Unit {0}) (Option (Request Value))) → IsOver (take_request wire r o)
    unfolding take_request
    take_request-IsOver (pending x) = h
    take_request-IsOver (ready none) = end_forward-IsOver (record o { requests_ended = true }) on
    take_request-IsOver (ready (some r)) =
        encoded-IsOver (encode wire (request r) o.written) (request r) o o h

module _ (json : Json) {api : AbortApi} {channels : OneshotApi (Response json.Value)}
    {S P B R J : Type 0} (router : Router S (BoxService json.Value P B R)) (reader : Reader J)
    (max : ℕ) (wire : Wire (Message json.Value) J) where
  open json use {Value}

  pub output_step-IsOver :
      (e : Event Value J R) (o : Output api channels B R)
      → IsOver o
      → IsOver (output_step json router reader max wire e o)
  unfolding output_step poll_responses poll_requests
  output_step-IsOver (served e) o h = after_step-IsOver o.print_output _ o h
  output_step-IsOver print_response o h =
      when_forwarding-IsOver o.print_output _ o refl
        (λ on. if_IsOver o.responses_ended o _ h (take_response-IsOver wire o on h _)) h
  output_step-IsOver (print_request is_terminated polled) o h =
      when_forwarding-IsOver o.print_output _ o refl
        (λ on. if_IsOver o.requests_ended o _ h (take_request-IsOver wire o on h _)) h
  output_step-IsOver output_failed o h = when_forwarding-IsOver o.print_output _ o refl (λ on. tt) h

  pub serve_output-IsOver :
      (es : List (Event Value J R)) (o : Output api channels B R)
      → IsOver o
      → IsOver (serve_output json router reader max wire es o)
  unfolding serve_output
  serve_output-IsOver [] o h = h
  serve_output-IsOver (e ∷ es) o h = serve_output-IsOver es _ (output_step-IsOver e o h)

  pub all_printed :
      (o : Output api channels B R)
      → IsPrinted wire o
      → IsOver o
      → o.print_output ≡ ended
      → responses_in o.printed ≡ o.connection.output
  all_printed o h w done =
      let both : (o.responses_ended && o.requests_ended) ≡ true =
        subst (λ p. HasEndedWith p (o.responses_ended && o.requests_ended)) done w in
      h.in_order ∙ take_all o.connection.output o.taken (h.complete (ground arith))

  -- Whatever the input, the schedule and the requests of the client: if `print_output` has ended
  -- without an error, the responses among the printed messages are all that were sent, in the
  -- order in which they were sent, and none is sent later without being printed.
  pub run_ended :
      (es : List (Event Value J R)) (k : Connection api channels B R)
      → k.responses_open ≡ true
      → let o = serve_output json router reader max wire es (print_nothing k) in
        o.print_output ≡ ended → responses_in o.printed ≡ o.connection.output
  unfolding print_nothing
  run_ended es k up done =
      all_printed _ (run-IsPrinted json router reader max wire es k up)
        (serve_output-IsOver es (print_nothing k) refl) done
