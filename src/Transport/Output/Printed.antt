-- ===== src/Transport/Output/Printed.antt =====
-- What `print_output` has printed: src/transport.rs.
use mathlib.Core.List.{append-nil}
use tower_lsp.Base.{
  ℕ, ◌≤◌, ◌≡◌, refl, sym, ap, ◌∙◌, inl, inr, Bool, true, false, ◌&&◌, List, [], ◌∷◌, ◌++◌, Option,
  none, some, ok, length, take, get_elem?, Bool-cases, if◌then◌else◌,
}
use tower_lsp.JsonRpc.Request.{Request}
use tower_lsp.JsonRpc.Response.{Response}
use tower_lsp.JsonRpc.Message.{Message, response, request}
use tower_lsp.Service.Abort.{AbortApi}
use tower_lsp.Service.Task.{Poll, pending, ready}
use tower_lsp.Client.Oneshot.{OneshotApi}
use tower_lsp.Codec.Wire.{Wire}
use tower_lsp.Codec.Encode.{encode}
use tower_lsp.Codec.Stream.{encode_all}
use tower_lsp.Transport.Connection.{Connection}
use tower_lsp.Transport.Output.Closed.{IsShut}
use tower_lsp.Transport.Output.{
  Printer, forwarding, ended, failed, panicked, Output, when_forwarding, end_forward, is_closed,
  take_response, take_request, poll_responses, poll_requests,
}
use tower_lsp.Codec.Appended.{Result-cases, encode_all-append}
use tower_lsp.Transport.Output.Positions.{take_next, none_left}

-- The responses among some messages.
abbrev pub responses_in : {Value : Type 0} → List (Message Value) → List (Response Value)
responses_in [] = []
responses_in (response r ∷ ms) = r ∷ responses_in ms
responses_in (request r ∷ ms) = responses_in ms

responses_in-append :
    {Value : Type 0} (ms ns : List (Message Value))
    → responses_in (ms ++ ns) ≡ responses_in ms ++ responses_in ns
responses_in-append [] ns = refl
responses_in-append (response r ∷ ms) ns = ap (◌∷◌ r) (responses_in-append ms ns)
responses_in-append (request r ∷ ms) ns = responses_in-append ms ns

module _ {Value J : Type 0} {api : AbortApi} {channels : OneshotApi (Response Value)} {B R : Type 0}
    (wire : Wire (Message Value) J) where
  -- The bytes are the encoded messages, and the responses among these are the first ones of those
  -- that were sent; all of them, once `responses_rx` has given its end.
  pub record HasPrinted (k : Connection api channels B R) (taken : ℕ) (responses_ended : Bool)
      (printed : List (Message Value)) (written : List ℕ) : Type 0 where
    pub encoded_all : encode_all wire printed [] ≡ ok written
    pub in_order : responses_in printed ≡ take taken k.output
    pub bound : taken ≤ length k.output
    pub shut : IsShut k
    pub closed : responses_ended ≡ true → is_closed k ≡ true
    pub complete : responses_ended ≡ true → length k.output ≤ taken

  abbrev pub IsPrinted : Output api channels B R → Type 0
  IsPrinted o = HasPrinted o.connection o.taken o.responses_ended o.printed o.written

  end_forward-IsPrinted : (o : Output api channels B R) → IsPrinted o → IsPrinted (end_forward o)
  unfolding end_forward
  end_forward-IsPrinted o h = elim (Bool-cases (o.responses_ended && o.requests_ended)) [
    | inl both ↦ rw both h
    | inr more ↦ rw more h
  ]

  take_request-IsPrinted :
      (r : Poll (Unit {0}) (Option (Request Value))) (o : Output api channels B R)
      → IsPrinted o
      → IsPrinted (take_request wire r o)
  unfolding take_request
  take_request-IsPrinted (pending x) o h = h
  take_request-IsPrinted (ready none) o h =
      end_forward-IsPrinted (record o { requests_ended = true }) h
  take_request-IsPrinted (ready (some r)) o h =
      elim (Result-cases wire (encode wire (request r) o.written)) [
        | inl (dst, e) ↦ rw e (record {
          encoded_all =
              encode_all-append wire o.printed (request r) [] o.written dst h.encoded_all e;
          in_order = responses_in-append o.printed (request r ∷ []) ∙ append-nil _ ∙ h.in_order;
          bound = h.bound;
          shut = h.shut;
          closed = h.closed;
          complete = h.complete;
        })
        | inr (bad, e) ↦ rw e h
      ]

  take_response-IsPrinted :
      (s : Option (Response Value)) (o : Output api channels B R)
      → get_elem? o.connection.output o.taken ≡ s
      → o.responses_ended ≡ false
      → IsPrinted o
      → IsPrinted (take_response wire s o)
  unfolding take_response
  take_response-IsPrinted none o at more h = elim (Bool-cases (is_closed o.connection)) [
    | inl shut ↦ rw shut (
        end_forward-IsPrinted (record o { responses_ended = true })
          (record {
            encoded_all = h.encoded_all;
            in_order = h.in_order;
            bound = h.bound;
            shut = h.shut;
            closed = λ e. shut;
            complete = λ e. none_left o.connection.output o.taken at;
          }))
    | inr alive ↦ rw alive h
  ]
  take_response-IsPrinted (some r) o at more h =
      elim (Result-cases wire (encode wire (response r) o.written)) [
        | inl (dst, e) ↦
            let (same, bound) = take_next o.connection.output o.taken at in
            rw e (record {
              encoded_all =
                  encode_all-append wire o.printed (response r) [] o.written dst h.encoded_all e;
              in_order =
                  responses_in-append o.printed (response r ∷ [])
                  ∙ ap (λ l. l ++ r ∷ []) h.in_order
                  ∙ sym same;
              bound = bound;
              shut = h.shut;
              closed = λ ended. absurd (cc);
              complete = λ ended. absurd (cc);
            })
        | inr (bad, e) ↦ rw e h
      ]

  pub if_IsPrinted :
      (b : Bool) (o o' : Output api channels B R)
      → IsPrinted o
      → (b ≡ false → IsPrinted o')
      → IsPrinted (if b then o else o')
  if_IsPrinted true o o' g h = g
  if_IsPrinted false o o' g h = h refl

  pub poll_responses-IsPrinted :
      (o : Output api channels B R) → IsPrinted o → IsPrinted (poll_responses wire o)
  unfolding poll_responses
  poll_responses-IsPrinted o h =
      if_IsPrinted o.responses_ended o _ h
        (λ more. take_response-IsPrinted (get_elem? o.connection.output o.taken) o refl more h)

  pub poll_requests-IsPrinted :
      (is_terminated : Bool) (polled : Poll (Unit {0}) (Option (Request Value)))
      (o : Output api channels B R)
      → IsPrinted o
      → IsPrinted (poll_requests wire is_terminated polled o)
  unfolding poll_requests
  poll_requests-IsPrinted is_terminated polled o h =
      if_IsPrinted o.requests_ended o _ h (λ more. take_request-IsPrinted _ o h)

  pub when_forwarding-IsPrinted :
      (p : Printer) (next o : Output api channels B R)
      → IsPrinted next
      → IsPrinted o
      → IsPrinted (when_forwarding p next o)
  when_forwarding-IsPrinted forwarding next o g h = g
  when_forwarding-IsPrinted ended next o g h = h
  when_forwarding-IsPrinted failed next o g h = h
  when_forwarding-IsPrinted panicked next o g h = h
