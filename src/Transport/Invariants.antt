-- ===== src/Transport/Invariants.antt =====
-- The steps of the server: src/transport.rs.
use tower_lsp.Base.{
  ℕ, ◌≡◌, refl, sym, subst, inl, inr, Bool, true, false, List, [], ◌∷◌, ◌++◌, Option, none, some,
  ok, err, Result, All, get_elem?, Bool-cases,
}
use tower_lsp.JsonRpc.RequestId.{null}
use tower_lsp.JsonRpc.Json.{Json}
use tower_lsp.JsonRpc.Error.{Error}
use tower_lsp.JsonRpc.Request.{Request}
use tower_lsp.JsonRpc.Response.{Response, from_error}
use tower_lsp.JsonRpc.Router.{Router}
use tower_lsp.Service.Abort.{AbortApi}
use tower_lsp.Service.Task.{Task, Poll, pending, ready, ExitedError}
use tower_lsp.Service.Polling.{poll}
use tower_lsp.Service.Lsp.{BoxService, poll_ready}
use tower_lsp.Service.System.{System, Slot, called, set_slot, step}
use tower_lsp.Client.Oneshot.{OneshotApi}
use tower_lsp.Client.Waiters.{Pending}
use tower_lsp.Client.Socket.{poll_sink, start_send}
use tower_lsp.Codec.Headers.{ParseError}
use tower_lsp.Transport.Failure.{to_jsonrpc_error}
use tower_lsp.JsonRpc.Message.{Message, response, request}
use tower_lsp.Transport.Connection.{
  Reader, Reading, reading, waiting, Connection, Step, read, end_of_input, resumed, polled, admit,
  forward, receive, disconnect, read_on, after_send, resume, finish_poll, poll_task, serve_step,
  serve, when_reading, response_of_task, is_in_progress,
}

abbrev pub HasNullId : {Value : Type 0} → Response Value → Type 0
HasNullId r = r.id ≡ null

from_error-HasNullId : {Value : Type 0} (e : Error Value) → HasNullId (from_error null e)
unfolding from_error
from_error-HasNullId e = refl

module _ {Value : Type 0} (Q : Request Value → Type 0) where
  abbrev pub IsWaitingFor : Reading Value → Type 0
  IsWaitingFor (waiting req) = Q req
  IsWaitingFor _ = Unit

  -- The requests among the items are known.
  module _ {J R : Type 0} where
    abbrev pub IsKnown : Step Value J R → Type 0
    IsKnown (read (ok (request req))) = Q req
    IsKnown _ = Unit

pub step-IsKnown :
    {Value J R : Type 0} (es : List (Step Value J R))
    → All (IsKnown {Value = Value} (λ req. Unit)) es
step-IsKnown [] = tt
step-IsKnown (read (ok (request req)) ∷ es) = (tt, step-IsKnown es)
step-IsKnown (read (ok (response res)) ∷ es) = (tt, step-IsKnown es)
step-IsKnown (read (err e) ∷ es) = (tt, step-IsKnown es)
step-IsKnown (end_of_input ∷ es) = (tt, step-IsKnown es)
step-IsKnown (resumed ∷ es) = (tt, step-IsKnown es)
step-IsKnown (polled i answer ∷ es) = (tt, step-IsKnown es)

module _ (json : Json) {api : AbortApi} {S P B R : Type 0}
    (router : Router S (BoxService json.Value P B R)) (max : ℕ)
    (Q : Request json.Value → Type 0) where
  open json use {Value}

  -- A predicate on the tasks and the output that outlasts the three steps which change these.
  pub record IsLasting (Inv : System api Value B R → List (Response Value) → Type 0) : Type 0 where
    pub admitted :
        (s : System api Value B R) (o : List (Response Value)) (req : Request Value)
        → Inv s o
        → Q req
        → Inv (step json router (called req) s) o
    pub finished :
        (s : System api Value B R) (o : List (Response Value)) (i : ℕ) (answer : Option R)
        (t : Task Value api.Handle B R)
        → Inv s o
        → get_elem? s.slots i ≡ some (pending t)
        → is_in_progress max i s.slots ≡ true
        → Inv
            (set_slot s.slots i (poll json api answer s.world t))
            (o ++ response_of_task (poll json api answer s.world t).1)
    pub failed :
        (s : System api Value B R) (o : List (Response Value)) (r : Response Value)
        → Inv s o
        → HasNullId r
        → Inv s (o ++ r ∷ [])

module _ (json : Json) {api : AbortApi} {channels : OneshotApi (Response json.Value)}
    {S P B R J : Type 0} (router : Router S (BoxService json.Value P B R)) (reader : Reader J)
    (max : ℕ) (Q : Request json.Value → Type 0)
    (Inv : System api json.Value B R → List (Response json.Value) → Type 0)
    (lasting : IsLasting json router max Q Inv) where
  open json use {Value}

  abbrev pub Holds : Connection api channels B R → Type 0
  Holds k = Inv k.system k.output × IsWaitingFor Q k.read_input

  read_on-Holds :
      (ends : Bool) (k : Connection api channels B R)
      → Holds k
      → Holds (read_on json router reader max ends k)
  unfolding disconnect
  read_on-Holds true k h = (h.0, tt)
  read_on-Holds false k h = h

  module _ (k : Connection api channels B R) (h : Holds k) where
    poll_task-Holds :
        (s : Option (Slot api Value B R)) (i : ℕ) (answer : Option R)
        → get_elem? k.system.slots i ≡ s
        → Holds (poll_task json router reader max s i answer k)
    unfolding poll_task finish_poll
    poll_task-Holds (some (pending t)) i answer e =
        elim (Bool-cases (is_in_progress max i k.system.slots)) [
          | inl free ↦ rw (free) (lasting.finished k.system k.output i answer t h.0 e free, h.1)
          | inr full ↦ rw (full) h
        ]
    poll_task-Holds (some (ready o)) i answer e = h
    poll_task-Holds none i answer e = h

    admit-Holds :
        (r : Poll (Unit {0}) (Result (Unit {0}) ExitedError)) (req : Request Value)
        → Q req
        → Holds (admit json router reader max r req k)
    unfolding admit
    admit-Holds (ready (err e)) req q = (h.0, tt)
    admit-Holds (ready (ok x)) req q = (lasting.admitted k.system k.output req h.0 q, tt)
    admit-Holds (pending x) req q = (h.0, q)

    after_send-Holds :
        (sent : Option (Pending channels × Result (Unit {0}) ExitedError))
        → Holds (after_send sent k)
    unfolding after_send
    after_send-Holds none = (h.0, tt)
    after_send-Holds (some (p, ok x)) = h
    after_send-Holds (some (p, err e)) = (h.0, tt)

    forward-Holds :
        (r : Result (Unit {0}) ExitedError) (res : Response Value)
        → Holds (forward json router reader max r res k)
    unfolding forward
    forward-Holds (err e) res = (h.0, tt)
    forward-Holds (ok x) res = after_send-Holds (start_send res k.waiters)

    receive-Holds :
        (item : Result (Message Value) (ParseError J))
        → IsKnown Q {R = R} (read item)
        → Holds (receive json router reader max item k)
    unfolding receive
    receive-Holds (ok (request req)) q = admit-Holds (poll_ready k.system.world.state) req q
    receive-Holds (ok (response res)) q = forward-Holds (poll_sink k.system.world.state) res
    receive-Holds (err e) q =
        read_on-Holds reader.ends_with_error
          (record k {
            output = k.output ++ from_error null (to_jsonrpc_error reader.is_data e) ∷ [];
          })
          (
            lasting.failed k.system k.output _ h.0
                (from_error-HasNullId (to_jsonrpc_error reader.is_data e)),
            h.1,
          )

    disconnect-Holds : Holds (disconnect json router reader max k)
    unfolding disconnect
    disconnect-Holds = (h.0, tt)

    resume-Holds :
        (r : Reading Value) → r ≡ k.read_input → Holds (resume json router reader max r k)
    unfolding resume
    resume-Holds (waiting req) e =
        admit-Holds (poll_ready k.system.world.state) req (subst (IsWaitingFor Q) (sym e) h.1)
    resume-Holds _ e = h

    when_reading-Holds :
        (r : Reading Value) (next : Connection api channels B R)
        → Holds next
        → Holds (when_reading json router reader max r next k)
    when_reading-Holds reading next h' = h'
    when_reading-Holds _ next h' = h

    pub serve_step-Holds :
        (e : Step Value J R) → IsKnown Q e → Holds (serve_step json router reader max e k)
    unfolding serve_step
    serve_step-Holds (read item) q = when_reading-Holds k.read_input _ (receive-Holds item q)
    serve_step-Holds end_of_input q = when_reading-Holds k.read_input _ disconnect-Holds
    serve_step-Holds resumed q = resume-Holds k.read_input refl
    serve_step-Holds (polled i answer) q =
        poll_task-Holds (get_elem? k.system.slots i) i answer refl

  serve-Holds :
      (es : List (Step Value J R)) (k : Connection api channels B R)
      → All (IsKnown Q) es
      → Holds k
      → Holds (serve json router reader max es k)
  unfolding serve
  serve-Holds [] k known h = h
  serve-Holds (e ∷ es) k known h = serve-Holds es _ known.1 (serve_step-Holds k h e known.0)

  -- Such a predicate holds at every time if it holds when the server starts to read.
  pub serve_keeps :
      (es : List (Step Value J R)) (k : Connection api channels B R)
      → All (IsKnown Q) es
      → k.read_input ≡ reading
      → Inv k.system k.output
      → Inv (serve json router reader max es k).system (serve json router reader max es k).output
  serve_keeps es k known r h = (serve-Holds es k known (h, subst (IsWaitingFor Q) (sym r) tt)).0
