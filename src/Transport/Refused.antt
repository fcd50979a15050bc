-- ===== src/Transport/Refused.antt =====
-- A request that the state forbids, from the input to the output: src/transport.rs.
use tower_lsp.Base.{
  ℕ, ◌<◌, ◌≡◌, refl, sym, subst, ap, ◌⊎◌, inl, inr, false, List, [], ◌∷◌, ◌++◌, Option, none, some,
  get_elem?, length, arith, lt→ltb, ok,
}
use tower_lsp.JsonRpc.RequestId.{RequestId}
use tower_lsp.JsonRpc.Json.{Json}
use tower_lsp.JsonRpc.Error.{ErrorCode, code, method_not_found}
use tower_lsp.JsonRpc.Request.{Request}
use tower_lsp.JsonRpc.Response.{Response, from_error, error}
use tower_lsp.JsonRpc.Router.{Router}
use tower_lsp.Service.State.{State, uninitialized, initializing, initialized, shut_down, exited}
use tower_lsp.Service.Abort.{AbortApi}
use tower_lsp.Service.Task.{Task, Outcome, Poll, pending, ready, done, filtering}
use tower_lsp.Service.Polling.{poll, filter_response, is_optional_error, is_method_not_found}
use tower_lsp.Service.Lsp.{BoxService, call, poll_ready}
use tower_lsp.Service.Lifecycle.Gate.{Refuses, refusal_code}
use tower_lsp.Service.System.{add_slot, set_slot, step}
use tower_lsp.Client.Oneshot.{OneshotApi}
use tower_lsp.JsonRpc.Message.{request}
use tower_lsp.Transport.Connection.{
  Reader, Reading, reading, Connection, read, polled, serve, serve_step, receive, admit, poll_task,
  finish_poll, response_of_task, is_in_progress, running_before, when_reading,
}

module _ {A : Type 0} where
  get_elem?-append_length : (xs : List A) (y : A) → get_elem? (xs ++ y ∷ []) (length xs) ≡ some y
  get_elem?-append_length [] y = refl
  get_elem?-append_length (x ∷ xs) y = get_elem?-append_length xs y

running_before-append :
    {T A : Type 0} (xs ys : List (Poll T A))
    → running_before (length xs) (xs ++ ys) ≡ running_before (length xs) xs
running_before-append [] ys = refl
running_before-append (x ∷ xs) ys = omega (arith, running_before-append xs ys)

-- The code of a refusal is not the one that the service filters.
is_method_not_found-refusal :
    (c : ErrorCode) (s : State) → code c ≡ refusal_code s → is_method_not_found c ≡ false
unfolding code
is_method_not_found-refusal method_not_found uninitialized e = ground arith
is_method_not_found-refusal method_not_found initializing e = ground arith
is_method_not_found-refusal method_not_found initialized e = ground arith
is_method_not_found-refusal method_not_found shut_down e = ground arith
is_method_not_found-refusal method_not_found exited e = ground arith
is_method_not_found-refusal _ s e = refl

filter_response-refusal :
    (json : Json) (id : Option RequestId) (s : State) (res : Option (Response json.Value))
    → Refuses id s res
    → filter_response json res ≡ res
unfolding filter_response error is_optional_error from_error
filter_response-refusal json none s res e = rw (e) refl
filter_response-refusal json (some i) s res (x, e, c) =
    rw (e) (rw (is_method_not_found-refusal x.code s c) refl)

-- The states before `initialize` and after `shutdown`.
abbrev pub IsClosed : State → Type 0
IsClosed s = (s ≡ uninitialized) ⊎ (s ≡ shut_down)

closed_poll_ready : (s : State) → IsClosed s → poll_ready s ≡ ready (ok tt)
unfolding poll_ready
closed_poll_ready s (inl e) = rw (e) refl
closed_poll_ready s (inr e) = rw (e) refl

abbrev pub written : {Value : Type 0} → Option (Response Value) → List (Response Value)
written none = []
written (some r) = r ∷ []

response_of_task-written :
    (T : Type 0) {Value : Type 0} (res : Option (Response Value))
    → response_of_task {T = T} (ready (ok res)) ≡ written res
unfolding response_of_task
response_of_task-written T none = refl
response_of_task-written T (some r) = refl

module _ (json : Json) {api : AbortApi} {channels : OneshotApi (Response json.Value)}
    {S P B R J : Type 0} (router : Router S (BoxService json.Value P B R)) (reader : Reader J)
    (max : ℕ) (k : Connection api channels B R) (req : Request json.Value)
    (res : Option (Response json.Value)) where
  open json use {Value}

  -- The server with the future of the refusal behind its tasks.
  abbrev admitted : Connection api channels B R
  admitted = record k {
    read_input = reading;
    system = record {
      world = k.system.world;
      slots = k.system.slots ++ pending (filtering (done (ok res))) ∷ [];
    };
  }

  module _
      (called_eq : call json router req k.system.world
        ≡ (k.system.world, filtering (done (ok res)))) where
    when_reading-admitted :
        (r : Reading Value)
        → r ≡ reading
        → IsClosed k.system.world.state
        → when_reading json router reader max r
            (receive json router reader max (ok (request req)) k)
            k
          ≡ admitted
    unfolding receive admit step add_slot
    when_reading-admitted reading e c =
        rw (closed_poll_ready k.system.world.state c) (rw (called_eq) refl)
    when_reading-admitted _ e c = absurd (cc)

  -- The output grows by the refusal, and the world stays as it was.
  abbrev pub HasRefused : Connection api channels B R → Type 0
  HasRefused k' = (k'.output ≡ k.output ++ written res) × (k'.system.world ≡ k.system.world)

  polled-HasRefused :
      (answer : Option R)
      → running_before (length k.system.slots) k.system.slots < max
      → Refuses req.id k.system.world.state res
      → HasRefused
          (serve_step json router reader max (polled (length k.system.slots) answer) admitted)
  unfolding serve_step poll_task finish_poll is_in_progress poll set_slot
  polled-HasRefused answer room refused =
      let slots = k.system.slots in
      let task : Poll (Task Value api.Handle B R) (Outcome Value) =
        pending (filtering (done (ok res))) in
      let free =
        lt→ltb (running_before (length slots) (slots ++ task ∷ [])) max
          (omega (arith, room, running_before-append slots (task ∷ []))) in
      rw (get_elem?-append_length slots task, poll_task)
        (rw (free) (
          rw (filter_response-refusal json req.id k.system.world.state res refused) (
            ap (λ l. k.output ++ l) (response_of_task-written (Task Value api.Handle B R) res),
            refl,
          )))

  pub serve-HasRefused :
      (answer : Option R)
      → call json router req k.system.world ≡ (k.system.world, filtering (done (ok res)))
      → k.read_input ≡ reading
      → IsClosed k.system.world.state
      → running_before (length k.system.slots) k.system.slots < max
      → Refuses req.id k.system.world.state res
      → HasRefused (
          serve json router reader max
            (read (ok (request req)) ∷ polled (length k.system.slots) answer ∷ [])
            k)
  unfolding serve serve_step
  serve-HasRefused answer called_eq r c room refused =
      subst
        (λ k'.
          HasRefused (serve_step json router reader max (polled (length k.system.slots) answer) k'))
        (sym (when_reading-admitted called_eq k.read_input r c))
        (polled-HasRefused answer room refused)
