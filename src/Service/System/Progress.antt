-- ===== src/Service/System/Progress.antt =====
-- That the futures of the service end: src/service.rs, src/service/layers.rs and
-- src/service/pending.rs.
use tower_lsp.Base.{◌≡◌, refl, ap, inl, inr, none, some, ok, err, Bool-cases}
use tower_lsp.JsonRpc.RequestId.{RequestId}
use tower_lsp.JsonRpc.Json.{Json}
use tower_lsp.Service.Abort.{AbortApi}
use tower_lsp.Service.World.{World}
use tower_lsp.Service.Task.{
  Task, Outcome, Poll, Polled, pending, ready, done, running, cancelling, abortable, initializing,
  filtering,
}
use tower_lsp.Service.Polling.{poll, after_abortable, after_initialize, after_call}
use tower_lsp.Service.Lifecycle.Gate.{Runs}

abbrev pub HasEnded : {Value H B R : Type 0} → Poll (Task Value H B R) (Outcome Value) → Type 0
HasEnded (ready o) = Unit
HasEnded (pending t) = ⊥

-- Ended, or where it was, with a future of the backend to wait for.
abbrev pub HasWaited :
    {Value H B R : Type 0} → Task Value H B R → Poll (Task Value H B R) (Outcome Value) → Type 0
HasWaited t (ready o) = Unit
HasWaited t (pending t') = (t' ≡ t) × Runs t

module _ (json : Json) (api : AbortApi) {B R : Type 0} where
  open json use {Value}

  after_abortable-HasEnded :
      (h : api.Handle) (id : RequestId) (p : Polled api Value B R)
      → HasEnded p.1
      → HasEnded (after_abortable json api h id p).1
  unfolding after_abortable
  after_abortable-HasEnded h id (w, ready o) e = tt
  after_abortable-HasEnded h id (w, pending t) e = e

  after_initialize-HasEnded :
      (p : Polled api Value B R) → HasEnded p.1 → HasEnded (after_initialize json api p).1
  unfolding after_initialize
  after_initialize-HasEnded (w, ready (ok res)) e = tt
  after_initialize-HasEnded (w, ready (err x)) e = tt
  after_initialize-HasEnded (w, pending t) e = e

  after_call-HasEnded :
      (p : Polled api Value B R) → HasEnded p.1 → HasEnded (after_call json api p).1
  unfolding after_call
  after_call-HasEnded (w, ready (ok res)) e = tt
  after_call-HasEnded (w, ready (err x)) e = tt
  after_call-HasEnded (w, pending t) e = e

  -- Every future of the service ends at the first poll at which the backend's future in it ends,
  -- in whatever world.
  pub poll-HasEnded :
      (r : R) (w : World api) (t : Task Value api.Handle B R)
      → HasEnded (poll json api (some r) w t).1
  unfolding poll
  poll-HasEnded r w (done o) = tt
  poll-HasEnded r w (running b ir id) = tt
  poll-HasEnded r w (cancelling target ir id) = tt
  poll-HasEnded r w (abortable h id t) = elim (Bool-cases (api.is_aborted w.flags h)) [
    | inl up ↦ rw (up, poll) tt
    | inr down ↦ rw (down, poll) (after_abortable-HasEnded h id _ (poll-HasEnded r w t))
  ]
  poll-HasEnded r w (initializing t) = after_initialize-HasEnded _ (poll-HasEnded r w t)
  poll-HasEnded r w (filtering t) = after_call-HasEnded _ (poll-HasEnded r w t)

  after_abortable-HasWaited :
      (h : api.Handle) (id : RequestId) (t : Task Value api.Handle B R) (p : Polled api Value B R)
      → HasWaited t p.1
      → HasWaited (abortable h id t) (after_abortable json api h id p).1
  unfolding after_abortable
  after_abortable-HasWaited h id t (w, ready o) e = tt
  after_abortable-HasWaited h id t (w, pending t') (e, r) = (ap (abortable h id) e, r)

  after_initialize-HasWaited :
      (t : Task Value api.Handle B R) (p : Polled api Value B R)
      → HasWaited t p.1
      → HasWaited (initializing t) (after_initialize json api p).1
  unfolding after_initialize
  after_initialize-HasWaited t (w, ready (ok res)) e = tt
  after_initialize-HasWaited t (w, ready (err x)) e = tt
  after_initialize-HasWaited t (w, pending t') (e, r) = (ap initializing e, r)

  after_call-HasWaited :
      (t : Task Value api.Handle B R) (p : Polled api Value B R)
      → HasWaited t p.1
      → HasWaited (filtering t) (after_call json api p).1
  unfolding after_call
  after_call-HasWaited t (w, ready (ok res)) e = tt
  after_call-HasWaited t (w, ready (err x)) e = tt
  after_call-HasWaited t (w, pending t') (e, r) = (ap filtering e, r)

  -- A poll at which the backend's future goes on waiting ends the future or leaves it as it was,
  -- and the latter only where it runs a future of the backend.
  pub poll-HasWaited :
      (w : World api) (t : Task Value api.Handle B R) → HasWaited t (poll json api none w t).1
  unfolding poll
  poll-HasWaited w (done o) = tt
  poll-HasWaited w (running b ir id) = (refl, tt)
  poll-HasWaited w (cancelling target ir id) = tt
  poll-HasWaited w (abortable h id t) = elim (Bool-cases (api.is_aborted w.flags h)) [
    | inl up ↦ rw (up, poll) tt
    | inr down ↦ rw (down, poll) (after_abortable-HasWaited h id t _ (poll-HasWaited w t))
  ]
  poll-HasWaited w (initializing t) = after_initialize-HasWaited t _ (poll-HasWaited w t)
  poll-HasWaited w (filtering t) = after_call-HasWaited t _ (poll-HasWaited w t)
