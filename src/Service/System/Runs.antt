-- ===== src/Service/System/Runs.antt =====
-- The invariant of the request table over whole runs: src/service.rs and src/service/pending.rs.
use tower_lsp.Base.{List, [], ◌∷◌, Option, none, some, get_elem?}
use tower_lsp.Base.Map.{get}
use tower_lsp.JsonRpc.Json.{Json}
use tower_lsp.JsonRpc.Router.{Router}
use tower_lsp.Service.Abort.{AbortApi}
use tower_lsp.Service.Task.{pending, ready}
use tower_lsp.Service.Lsp.{BoxService}
use tower_lsp.Service.Cancellation.{IsWellFormed}
use tower_lsp.Service.Cancellation.Preserved.{call-IsWellFormed, poll-IsWellFormed}
use tower_lsp.Service.System.{System, Slot, Event, called, polled, start, poll_slot, step, run}

module _ (json : Json) {api : AbortApi} {S P B R : Type 0}
    (router : Router S (BoxService json.Value P B R)) where
  open json use {Value}

  abbrev IsSound : System api Value B R → Type 0
  IsSound s = IsWellFormed s.world

  poll_slot-IsSound :
      (slot : Option (Slot api Value B R)) (i : _) (answer : Option R) (s : System api Value B R)
      → IsSound s
      → IsSound (poll_slot json router slot i answer s)
  unfolding poll_slot
  poll_slot-IsSound (some (pending t)) i answer s v = poll-IsWellFormed json api answer s.world t v
  poll_slot-IsSound (some (ready o)) i answer s v = v
  poll_slot-IsSound none i answer s v = v

  step-IsSound :
      (e : Event Value R) (s : System api Value B R) → IsSound s → IsSound (step json router e s)
  unfolding step
  step-IsSound (called req) s v = call-IsWellFormed json router req s.world v
  step-IsSound (polled i answer) s v = poll_slot-IsSound (get_elem? s.slots i) i answer s v

  run-IsSound :
      (es : List (Event Value R)) (s : System api Value B R)
      → IsSound s
      → IsSound (run json router es s)
  unfolding run
  run-IsSound [] s v = v
  run-IsSound (e ∷ es) s v = run-IsSound es (step json router e s) (step-IsSound e s v)

  start-IsSound : (flags : api.Flags) → IsSound (start api flags)
  unfolding start get
  start-IsSound flags = record {
    issued = λ i h e. absurd (cc);
    down = λ i h e. absurd (cc);
    own = λ i j h e f. absurd (cc);
  }

  -- After any calls and polls, in any order, from a new service on: each registered request has a
  -- handle of its own, whose flag is down. So no request that is registered was cancelled, and no
  -- cancellation can reach two requests.
  pub run-IsWellFormed :
      (flags : api.Flags) (es : List (Event Value R))
      → IsWellFormed (run json router es (start api flags)).world
  run-IsWellFormed flags es = run-IsSound es (start api flags) (start-IsSound flags)
