-- ===== src/Transport/Output/Failed.antt =====
-- Errors of the output: src/transport.rs.
use mathlib.Core.List.{append-nil}
use tower_lsp.Base.{
  ℕ, ◌+◌, ◌≡◌, refl, sym, ap, ◌∙◌, subst, inl, inr, ◌⊎◌, true, false, List, [], ◌∷◌, ◌++◌, Option,
  some, ok, length, get_elem?, Bool-cases, arith, nat_eq, nat_eq_iff, length-append,
}
use tower_lsp.JsonRpc.Json.{Json}
use tower_lsp.JsonRpc.Response.{Response}
use tower_lsp.JsonRpc.Message.{Message}
use tower_lsp.JsonRpc.Router.{Router}
use tower_lsp.Service.Abort.{AbortApi}
use tower_lsp.Service.World.{World}
use tower_lsp.Service.Task.{Task, pending, ready}
use tower_lsp.Service.Polling.{poll}
use tower_lsp.Service.Lsp.{BoxService}
use tower_lsp.Client.Oneshot.{OneshotApi}
use tower_lsp.Codec.Wire.{Wire}
use tower_lsp.Transport.Connection.{
  Reader, Connection, Step, polled, serve_step, poll_task, finish_poll, is_in_progress,
  response_of_task,
}
use tower_lsp.Transport.Output.Closed.{HasGrown, output-HasGrown}
use tower_lsp.Transport.Output.{
  Printer, forwarding, ended, failed, panicked, Output, Event, served, print_response,
  print_request, output_failed, when_forwarding, after_step, output_step, serve_output,
}

module _ {Value : Type 0} {api : AbortApi} {channels : OneshotApi (Response Value)}
    {B R : Type 0} where
  -- `print_output` has ended with an error.
  abbrev pub IsDown : Output api channels B R → Type 0
  IsDown o = (o.print_output ≡ failed) ⊎ (o.print_output ≡ panicked)

  -- The output has failed, and nothing was sent or written since.
  abbrev pub IsSilent : Output api channels B R → Output api channels B R → Type 0
  IsSilent o o' =
      (o'.connection.output ≡ o.connection.output) × (o'.written ≡ o.written) × IsDown o'

  not_forwarding : (o : Output api channels B R) → forwarding ≡ o.print_output → IsDown o → ⊥
  not_forwarding o same (inl off) = absurd (cc)
  not_forwarding o same (inr off) = absurd (cc)

  not_ended : (o : Output api channels B R) → ended ≡ o.print_output → IsDown o → ⊥
  not_ended o same (inl off) = absurd (cc)
  not_ended o same (inr off) = absurd (cc)

  when_forwarding-IsSilent :
      (p : Printer) (next o : Output api channels B R)
      → p ≡ o.print_output
      → IsDown o
      → IsSilent o (when_forwarding p next o)
  when_forwarding-IsSilent forwarding next o same off = absurd (not_forwarding o same off)
  when_forwarding-IsSilent ended next o same off = absurd (not_ended o same off)
  when_forwarding-IsSilent failed next o same off = (refl, refl, off)
  when_forwarding-IsSilent panicked next o same off = (refl, refl, off)

same_of_length : {A : Type 0} (xs ys : List A) → HasGrown xs ys → length ys ≡ length xs → ys ≡ xs
same_of_length xs ys ([], e) h = e ∙ append-nil xs
same_of_length xs ys (z ∷ zs, e) h =
    let n : length ys ≡ length (xs ++ z ∷ zs) = ap length e in
    absurd (omega (arith, n, h, length-append xs (z ∷ zs)))

module _ (json : Json) {api : AbortApi} {channels : OneshotApi (Response json.Value)}
    {S P B R J : Type 0} (router : Router S (BoxService json.Value P B R)) (reader : Reader J)
    (max : ℕ) (wire : Wire (Message json.Value) J) where
  open json use {Value}

  served-IsSilent :
      (e : Step Value J R) (o : Output api channels B R)
      → o.print_output ≡ failed
      → IsSilent o (after_step failed (serve_step json router reader max e o.connection) o)
  served-IsSilent e o off =
      let k' = serve_step json router reader max e o.connection in
      elim (Bool-cases (nat_eq (length k'.output) (length o.connection.output))) [
        | inl same ↦ rw same (
          same_of_length o.connection.output k'.output
              (output-HasGrown json router reader max e o.connection) ((nat_eq_iff _ _).0 same),
          refl,
          inl off,
        )
        | inr other ↦ rw other (refl, refl, inr refl)
      ]

  after_step-IsSilent :
      (p : Printer) (e : Step Value J R) (o : Output api channels B R)
      → p ≡ o.print_output
      → IsDown o
      → IsSilent o (after_step p (serve_step json router reader max e o.connection) o)
  after_step-IsSilent forwarding e o same off = absurd (not_forwarding o same off)
  after_step-IsSilent ended e o same off = absurd (not_ended o same off)
  after_step-IsSilent failed e o same off = served-IsSilent e o (sym same)
  after_step-IsSilent panicked e o same off = (refl, refl, inr (sym same))

  output_step-IsSilent :
      (e : Event Value J R) (o : Output api channels B R)
      → IsDown o
      → IsSilent o (output_step json router reader max wire e o)
  unfolding output_step
  output_step-IsSilent (served e) o off = after_step-IsSilent o.print_output e o refl off
  output_step-IsSilent print_response o off = when_forwarding-IsSilent o.print_output _ o refl off
  output_step-IsSilent (print_request t p) o off =
      when_forwarding-IsSilent o.print_output _ o refl off
  output_step-IsSilent output_failed o off = when_forwarding-IsSilent o.print_output _ o refl off

  -- Once the output has failed, nothing more is sent or written.
  pub serve_output-IsSilent :
      (es : List (Event Value J R)) (o : Output api channels B R)
      → IsDown o
      → IsSilent o (serve_output json router reader max wire es o)
  unfolding serve_output
  serve_output-IsSilent [] o off = (refl, refl, off)
  serve_output-IsSilent (e ∷ es) o off =
      let (sent, bytes, off') = output_step-IsSilent e o off in
      let (sent', bytes', off'') = serve_output-IsSilent es _ off' in
      (sent' ∙ sent, bytes' ∙ bytes, off'')

  panic_stays :
      (es : List (Event Value J R)) (o : Output api channels B R)
      → o.print_output ≡ panicked
      → (serve_output json router reader max wire es o).print_output ≡ panicked
  unfolding serve_output output_step
  panic_stays [] o h = h
  panic_stays (served e ∷ es) o h = panic_stays es _ (rw h refl)
  panic_stays (print_response ∷ es) o h = panic_stays es _ (rw h refl)
  panic_stays (print_request t p ∷ es) o h = panic_stays es _ (rw h refl)
  panic_stays (output_failed ∷ es) o h = panic_stays es _ (rw h refl)

  poll_answered :
      (k : Connection api channels B R) (i : ℕ) (answer : Option R) (t : Task Value api.Handle B R)
      (w : World api) (r : Response Value)
      → get_elem? k.system.slots i ≡ some (pending t)
      → is_in_progress max i k.system.slots ≡ true
      → poll json api answer k.system.world t ≡ (w, ready (ok (some r)))
      → (serve_step json router reader max (polled i answer) k).output ≡ k.output ++ r ∷ []
  unfolding serve_step poll_task finish_poll response_of_task
  poll_answered k i answer t w r at free ends =
      rw (at, poll_task) (rw free (rw (ends, finish_poll) refl))

  sent_panics :
      (k' : Connection api channels B R) (o : Output api channels B R) (r : Response Value)
      → k'.output ≡ o.connection.output ++ r ∷ []
      → (after_step failed k' o).print_output ≡ panicked
  sent_panics k' o r e =
      let n : length k'.output ≡ length o.connection.output + 1 =
        ap length e ∙ length-append o.connection.output (r ∷ []) in
      let other : nat_eq (length k'.output) (length o.connection.output) ≡ false = ground arith in
      rw other refl

  -- Once the output has failed, the next task in progress that ends in a response makes the
  -- server panic, and nothing that happens later undoes it.
  pub served-panicked :
      (o : Output api channels B R) (i : ℕ) (answer : Option R) (t : Task Value api.Handle B R)
      (w : World api) (r : Response Value)
      → o.print_output ≡ failed
      → get_elem? o.connection.system.slots i ≡ some (pending t)
      → is_in_progress max i o.connection.system.slots ≡ true
      → poll json api answer o.connection.system.world t ≡ (w, ready (ok (some r)))
      → (es : List (Event Value J R))
      → (serve_output json router reader max wire (served (polled i answer) ∷ es) o).print_output
        ≡ panicked
  unfolding serve_output output_step
  served-panicked o i answer t w r off at free ends es =
      let k = o.connection in
      panic_stays es _ (
        subst
          (λ p.
            (after_step p (serve_step json router reader max (polled i answer) k) o).print_output
            ≡ panicked)
          (sym off) (sent_panics _ o r (poll_answered k i answer t w r at free ends)))
