-- ===== src/Service/System.antt =====
-- The service with the futures that it has handed out, as the event loop of src/transport.rs runs
-- it: calls and polls in any order.
pub mod Runs
pub mod Exit
pub mod Progress
use tower_lsp.Base.{ℕ, false, List, [], ◌∷◌, ◌++◌, Option, none, some, get_elem?, set}
use tower_lsp.JsonRpc.Json.{Json}
use tower_lsp.JsonRpc.Request.{Request}
use tower_lsp.JsonRpc.Router.{Router}
use tower_lsp.Service.State.{uninitialized}
use tower_lsp.Service.Abort.{AbortApi}
use tower_lsp.Service.World.{World}
use tower_lsp.Service.Task.{Task, Outcome, Poll, Polled, Called, pending, ready}
use tower_lsp.Service.Polling.{poll}
use tower_lsp.Service.Lsp.{BoxService, call}

-- A future, or what it ended in; it is not polled again then.
abbrev pub Slot : AbortApi → Type 0 → Type 0 → Type 0 → Type 0
Slot api Value B R = Poll (Task Value api.Handle B R) (Outcome Value)

pub record System (api : AbortApi) (Value B R : Type 0) : Type 0 where
  pub world : World api
  pub slots : List (Slot api Value B R)

pub data Event (Value R : Type 0) : Type 0 where
  -- `service.call(req)`
  called : Request Value → Event Value R
  -- a poll of the future at this place, with what the backend's future in it does
  polled : ℕ → Option R → Event Value R

-- `LspService::build`, before any message; `flags` is whatever handles the process has made.
unfoldable pub start : {Value B R : Type 0} (api : AbortApi) → api.Flags → System api Value B R
start api flags = record {
  world = record { state = uninitialized; pending = []; flags = flags; closed = false };
  slots = [];
}

module _ {api : AbortApi} {Value B R : Type 0} where
  unfoldable pub add_slot : List (Slot api Value B R) → Called api Value B R → System api Value B R
  add_slot slots (w, t) = record { world = w; slots = slots ++ pending t ∷ [] }

  unfoldable pub set_slot :
      List (Slot api Value B R) → ℕ → Polled api Value B R → System api Value B R
  set_slot slots i (w, p) = record { world = w; slots = set slots i p }

module _ (json : Json) {api : AbortApi} {S P B R : Type 0}
    (router : Router S (BoxService json.Value P B R)) where
  open json use {Value}

  unfoldable pub poll_slot :
      Option (Slot api Value B R) → ℕ → Option R → System api Value B R → System api Value B R
  unfolding set_slot
  poll_slot (some (pending t)) i answer s = set_slot s.slots i (poll json api answer s.world t)
  poll_slot _ i answer s = s

  unfoldable pub step : Event Value R → System api Value B R → System api Value B R
  unfolding add_slot poll_slot
  step (called req) s = add_slot s.slots (call json router req s.world)
  step (polled i answer) s = poll_slot (get_elem? s.slots i) i answer s

  unfoldable pub run : List (Event Value R) → System api Value B R → System api Value B R
  run [] s = s
  run (e ∷ es) s = run es (step e s)
