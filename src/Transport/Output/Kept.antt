-- ===== src/Transport/Output/Kept.antt =====
-- What `print_output` has printed, at any time: src/transport.rs.
use tower_lsp.Base.{
  ℕ, ◌≡◌, refl, sym, ◌∙◌, inl, true, List, [], ◌∷◌, length, arith, nat_eq, length-append,
  take-append_of_le,
}
use tower_lsp.JsonRpc.Json.{Json}
use tower_lsp.JsonRpc.Response.{Response}
use tower_lsp.JsonRpc.Message.{Message}
use tower_lsp.JsonRpc.Router.{Router}
use tower_lsp.Service.Abort.{AbortApi}
use tower_lsp.Service.Lsp.{BoxService}
use tower_lsp.Client.Oneshot.{OneshotApi}
use tower_lsp.Codec.Wire.{Wire}
use tower_lsp.Codec.Stream.{encode_all}
use tower_lsp.Transport.Connection.{Reader, Connection, Step, serve_step}
use tower_lsp.Transport.Output.Closed.{output-HasGrown, serve_step-IsShut, serve_step-is_closed}
use tower_lsp.Transport.Output.{
  Printer, forwarding, ended, failed, panicked, Output, print_nothing, Event, served,
  print_response, print_request, output_failed, after_step, output_step, serve_output,
}
use tower_lsp.Transport.Output.Printed.{
  HasPrinted, IsPrinted, if_IsPrinted, poll_responses-IsPrinted, poll_requests-IsPrinted,
  when_forwarding-IsPrinted,
}

module _ (json : Json) {api : AbortApi} {channels : OneshotApi (Response json.Value)}
    {S P B R J : Type 0} (router : Router S (BoxService json.Value P B R)) (reader : Reader J)
    (max : ℕ) (wire : Wire (Message json.Value) J) where
  open json use {Value}

  served-IsPrinted :
      (e : Step Value J R) (o : Output api channels B R)
      → IsPrinted wire o
      → HasPrinted wire
          (serve_step json router reader max e o.connection)
          o.taken
          o.responses_ended
          o.printed
          o.written
  served-IsPrinted e o h =
      let k = o.connection in
      let (more, grown) = output-HasGrown json router reader max e k in
      let still = λ (over : o.responses_ended ≡ true).
        serve_step-is_closed json router reader max e k h.shut (h.closed over) in
      record {
        encoded_all = h.encoded_all;
        in_order = h.in_order ∙ rw grown (sym (take-append_of_le o.taken k.output more h.bound));
        bound = rw grown (omega (arith, h.bound, length-append k.output more));
        shut = serve_step-IsShut json router reader max k e h.shut;
        closed = λ over. rw (still over) (h.closed over);
        complete = λ over. rw (still over) (h.complete over);
      }

  after_step-IsPrinted :
      (p : Printer) (k : Connection api channels B R) (o : Output api channels B R)
      → HasPrinted wire k o.taken o.responses_ended o.printed o.written
      → IsPrinted wire o
      → IsPrinted wire (after_step p k o)
  after_step-IsPrinted forwarding k o g h = g
  after_step-IsPrinted ended k o g h = g
  after_step-IsPrinted panicked k o g h = h
  after_step-IsPrinted failed k o g h =
      if_IsPrinted wire (nat_eq (length k.output) (length o.connection.output))
        (record o { connection = k }) (record o { print_output = panicked }) g (λ e. h)

  pub output_step-IsPrinted :
      (e : Event Value J R) (o : Output api channels B R)
      → IsPrinted wire o
      → IsPrinted wire (output_step json router reader max wire e o)
  unfolding output_step
  output_step-IsPrinted (served e) o h =
      after_step-IsPrinted o.print_output _ o (served-IsPrinted e o h) h
  output_step-IsPrinted print_response o h =
      when_forwarding-IsPrinted wire o.print_output _ o (poll_responses-IsPrinted wire o h) h
  output_step-IsPrinted (print_request is_terminated polled) o h =
      when_forwarding-IsPrinted wire o.print_output _ o
        (poll_requests-IsPrinted wire is_terminated polled o h) h
  output_step-IsPrinted output_failed o h = when_forwarding-IsPrinted wire o.print_output _ o h h

  pub serve_output-IsPrinted :
      (es : List (Event Value J R)) (o : Output api channels B R)
      → IsPrinted wire o
      → IsPrinted wire (serve_output json router reader max wire es o)
  unfolding serve_output
  serve_output-IsPrinted [] o h = h
  serve_output-IsPrinted (e ∷ es) o h = serve_output-IsPrinted es _ (output_step-IsPrinted e o h)

  print_nothing-IsPrinted :
      (k : Connection api channels B R) → k.responses_open ≡ true → IsPrinted wire (print_nothing k)
  unfolding print_nothing encode_all
  print_nothing-IsPrinted k up = record {
    encoded_all = refl;
    in_order = refl;
    bound = omega arith;
    shut = inl up;
    closed = λ e. absurd (cc);
    complete = λ e. absurd (cc);
  }

  -- This holds at any time after the start.
  pub run-IsPrinted :
      (es : List (Event Value J R)) (k : Connection api channels B R)
      → k.responses_open ≡ true
      → IsPrinted wire (serve_output json router reader max wire es (print_nothing k))
  run-IsPrinted es k up = serve_output-IsPrinted es _ (print_nothing-IsPrinted k up)
