-- ===== src/Service/System/Exit.antt =====
-- After `exit`: src/service.rs and src/service/layers.rs.
use tower_lsp.Base.{
  ℕ, ◌≡◌, refl, ◌∙◌, inl, inr, List, [], ◌∷◌, Option, none, some, ok, err, All, All-append, All-set,
  All-get, get_elem?, Bool-cases, eq_iff,
}
use tower_lsp.JsonRpc.Json.{Json}
use tower_lsp.JsonRpc.Request.{Request}
use tower_lsp.JsonRpc.Router.{Router}
use tower_lsp.Service.State.{exited, State_eq}
use tower_lsp.Service.Abort.{AbortApi}
use tower_lsp.Service.World.{World}
use tower_lsp.Service.Task.{
  Task, Outcome, Poll, Polled, Called, pending, ready, done, running, cancelling, abortable,
  initializing, filtering, exited_error,
}
use tower_lsp.Service.Polling.{poll, after_abortable, after_call}
use tower_lsp.Service.Lsp.{BoxService, call}
use tower_lsp.Service.Lifecycle.Moves.{AwaitsInitialize, poll-PollMoved}
use tower_lsp.Service.System.{
  System, Slot, Event, called, polled, add_slot, set_slot, poll_slot, step, run,
}

-- No answer to `initialize` is to come from it.
abbrev pub IsQuiet : {Value H B R : Type 0} → Poll (Task Value H B R) (Outcome Value) → Type 0
IsQuiet (pending t) = ¬ AwaitsInitialize t
IsQuiet (ready o) = Unit

module _ (json : Json) (api : AbortApi) {B R : Type 0} where
  open json use {Value}

  after_abortable-IsQuiet :
      (h : api.Handle) (id : _) (p : Polled api Value B R)
      → IsQuiet p.1
      → IsQuiet (after_abortable json api h id p).1
  unfolding after_abortable
  after_abortable-IsQuiet h id (w, pending t) q = q
  after_abortable-IsQuiet h id (w, ready o) q = tt

  after_call-IsQuiet : (p : Polled api Value B R) → IsQuiet p.1 → IsQuiet (after_call json api p).1
  unfolding after_call
  after_call-IsQuiet (w, pending t) q = q
  after_call-IsQuiet (w, ready (ok res)) q = tt
  after_call-IsQuiet (w, ready (err e)) q = tt

  poll-IsQuiet :
      (answer : Option R) (w : World api) (t : Task Value api.Handle B R)
      → ¬ AwaitsInitialize t
      → IsQuiet (poll json api answer w t).1
  unfolding poll
  poll-IsQuiet answer w (done o) q = tt
  poll-IsQuiet none w (running b ir id) q = q
  poll-IsQuiet (some r) w (running b ir id) q = tt
  poll-IsQuiet answer w (cancelling target ir id) q = tt
  poll-IsQuiet answer w (abortable h id t) q = elim (Bool-cases (api.is_aborted w.flags h)) [
    | inl up ↦ rw (up, poll) tt
    | inr down ↦
        rw (down, poll)
          (after_abortable-IsQuiet h id (poll json api answer w t) (poll-IsQuiet answer w t q))
  ]
  poll-IsQuiet answer w (initializing t) q = absurd (q tt)
  poll-IsQuiet answer w (filtering t) q =
      after_call-IsQuiet (poll json api answer w t) (poll-IsQuiet answer w t q)

module _ (json : Json) {api : AbortApi} {S P B R : Type 0}
    (router : Router S (BoxService json.Value P B R)) where
  open json use {Value}

  -- The service has exited, and no answer to `initialize` is to come.
  pub record HasExited (s : System api Value B R) : Type 0 where
    pub state : s.world.state ≡ exited
    pub quiet : All IsQuiet s.slots

  call_exited :
      (req : Request Value) (w : World api)
      → w.state ≡ exited
      → call json router req w ≡ (w, done (err exited_error))
  unfolding call
  call_exited req w e = rw ((eq_iff w.state exited).1 e, call)

  add_slot-HasExited :
      (s : System api Value B R) (c : Called api Value B R)
      → All IsQuiet s.slots
      → c.0.state ≡ exited
      → ¬ AwaitsInitialize c.1
      → HasExited (add_slot s.slots c)
  unfolding add_slot
  add_slot-HasExited s (w, t) quiet e q = record {
    state = e;
    quiet = All-append IsQuiet s.slots _ quiet (q, tt);
  }

  set_slot-HasExited :
      (s : System api Value B R) (i : ℕ) (p : Polled api Value B R)
      → All IsQuiet s.slots
      → p.0.state ≡ exited
      → IsQuiet p.1
      → HasExited (set_slot s.slots i p)
  unfolding set_slot
  set_slot-HasExited s i (w, p) quiet e q = record {
    state = e;
    quiet = All-set IsQuiet s.slots i p quiet q;
  }

  poll_state :
      (answer : Option R) (w : World api) (t : Task Value api.Handle B R)
      → ¬ AwaitsInitialize t
      → (poll json api answer w t).0.state ≡ w.state
  poll_state answer w t q = elim (poll-PollMoved json api answer w t) [
    | inl e ↦ e
    | inr (a, m) ↦ absurd (q a)
  ]

  poll_slot-HasExited :
      (slot : Option (Slot api Value B R)) (i : ℕ) (answer : Option R) (s : System api Value B R)
      → get_elem? s.slots i ≡ slot
      → HasExited s
      → HasExited (poll_slot json router slot i answer s)
  unfolding poll_slot
  poll_slot-HasExited (some (pending t)) i answer s e v =
      let q : ¬ AwaitsInitialize t = All-get IsQuiet s.slots i (pending t) v.quiet e in
      set_slot-HasExited s i (poll json api answer s.world t) v.quiet
        (poll_state answer s.world t q ∙ v.state) (poll-IsQuiet json api answer s.world t q)
  poll_slot-HasExited (some (ready o)) i answer s e v = v
  poll_slot-HasExited none i answer s e v = v

  step-HasExited :
      (e : Event Value R) (s : System api Value B R)
      → HasExited s
      → HasExited (step json router e s)
  unfolding step
  step-HasExited (called req) s v =
      rw (call_exited req s.world v.state) (add_slot-HasExited s _ v.quiet v.state (λ x. x))
  step-HasExited (polled i answer) s v = poll_slot-HasExited _ i answer s refl v

  run-HasExited :
      (es : List (Event Value R)) (s : System api Value B R)
      → HasExited s
      → HasExited (run json router es s)
  unfolding run
  run-HasExited [] s v = v
  run-HasExited (e ∷ es) s v = run-HasExited es (step json router e s) (step-HasExited e s v)

  -- Once the service has exited while no answer to `initialize` was to come, no calls and polls
  -- bring it back: after any of them the state is `exited`, and every call is refused with the
  -- exited error and changes nothing.
  pub run_exited :
      (es : List (Event Value R)) (s : System api Value B R) (req : Request Value)
      → HasExited s
      → ((run json router es s).world.state ≡ exited)
        × (call json router req (run json router es s).world
            ≡ ((run json router es s).world, done (err exited_error)))
  run_exited es s req v =
      let v' = run-HasExited es s v in
      (v'.state, call_exited req (run json router es s).world v'.state)
