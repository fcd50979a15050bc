-- ===== src/Service/Cancellation/Requests.antt =====
-- What cancelling does to the requests that are registered: src/service/pending.rs.
use tower_lsp.Base.{
  ◌≡◌, refl, ◌≢◌, ◌⊎◌, ◌∙◌, ap, inl, inr, false, Option, none, some, ok, arith, Option-cases,
  eq_iff, ◌==◌, if◌then◌else◌,
}
use tower_lsp.Base.Map.{get, get-insert, get-remove, remove}
use tower_lsp.JsonRpc.RequestId.{RequestId, Id_eq}
use tower_lsp.JsonRpc.Json.{Json}
use tower_lsp.JsonRpc.Error.{request_cancelled_object, invalid_request_object}
use tower_lsp.JsonRpc.Response.{from_error}
use tower_lsp.Service.Abort.{AbortApi}
use tower_lsp.Service.World.{World}
use tower_lsp.Service.Task.{Task, Outcome, Polled, ready, pending, done, abortable}
use tower_lsp.Service.Pending.{execute, cancel, release, aborted_outcome}
use tower_lsp.Service.Polling.{poll, after_abortable}
use tower_lsp.Service.Cancellation.{IsWellFormed}

-- In a well-formed table, the cancellation of one identifier leaves every other registered
-- request registered, with its flag down.
pub cancel_spares :
    {api : AbortApi} (id j : RequestId) (h : api.Handle) (w : World api)
    → IsWellFormed w
    → id ≢ j
    → get j w.pending ≡ some h
    → (get j (cancel id w).pending ≡ some h) × (api.is_aborted (cancel id w).flags h ≡ false)
unfolding cancel
cancel_spares {api} id j h w v other e = elim (Option-cases (get id w.pending)) [
  | inl free ↦ rw (free, cancel) (e, v.down j h e)
  | inr (k, taken) ↦
      rw (taken, cancel)
        (
          ground (arith, get-remove id j w.pending, eq_iff id j),
          api.abort_other w.flags h k (λ same. other (v.own id j h (taken ∙ ap some same) e))
              ∙ v.down j h e,
        )
]

module _ (json : Json) (api : AbortApi) {B R : Type 0} where
  open json use {Value}

  -- An identifier that is free is registered, every other entry stays, and the future is one that
  -- can be aborted; for one that is taken the future ends in the "invalid request" error under
  -- the identifier, and nothing changes.
  pub execute_cases :
      (id : RequestId) (t : Task Value api.Handle B R) (w : World api)
      → ((get id w.pending ≡ none)
          × ((h : api.Handle) × ((execute id t w).1 ≡ abortable h id t)
              × ((j : RequestId)
                  → get j (execute id t w).0.pending
                    ≡ (if id == j then some h else get j w.pending))))
        ⊎ ((get id w.pending ≢ none)
            × (execute id t w ≡ (w, done (ok (some (from_error id invalid_request_object))))))
  unfolding execute
  execute_cases id t w = elim (Option-cases (get id w.pending)) [
    | inl free ↦ inl (
      free,
      (
        (api.abortable w.flags).0,
        rw (free, execute) refl,
        λ j. rw (free, execute) (get-insert id j _ w.pending),
      ),
    )
    | inr (h, taken) ↦ inr ((λ e. cc), rw (taken, execute) refl)
  ]

  -- Once a registered request is cancelled, the next poll of its future, in the world that the
  -- cancellation left, does not run it: it ends in the "canceled" error under its identifier, and
  -- the identifier is free.
  pub poll-cancel :
      (id : RequestId) (h : api.Handle) (t : Task Value api.Handle B R) (w : World api)
      (answer : Option R)
      → get id w.pending ≡ some h
      → ((poll json api answer (cancel id w) (abortable h id t)).1
          ≡ ready (ok (some (from_error id request_cancelled_object))))
        × (get id (poll json api answer (cancel id w) (abortable h id t)).0.pending ≡ none)
  unfolding poll cancel release aborted_outcome
  poll-cancel id h t w answer e = (
    rw (e, cancel, api.abort_self w.flags h, poll) refl,
    rw (e, cancel, api.abort_self w.flags h, poll)
        (ground (arith, get-remove id id (remove id w.pending), eq_iff id id)),
  )

  after_abortable-cases :
      (id : RequestId) (h : api.Handle) (p : Polled api Value B R)
      → ((t' : Task Value api.Handle B R) × (p.1 ≡ pending t')
          × (after_abortable json api h id p ≡ (p.0, pending (abortable h id t'))))
        ⊎ ((o : Outcome Value) × (p.1 ≡ ready o)
            × (after_abortable json api h id p ≡ (release id p.0, ready o)))
  unfolding after_abortable
  after_abortable-cases id h (w, pending t') = inl (t', refl, refl)
  after_abortable-cases id h (w, ready o) = inr (o, refl, refl)

  -- While its flag is down, a registered future does what the handler's future does, and its
  -- identifier is freed exactly when it ends.
  pub poll-abortable :
      (id : RequestId) (h : api.Handle) (t : Task Value api.Handle B R) (w : World api)
      (answer : Option R)
      → api.is_aborted w.flags h ≡ false
      → ((t' : Task Value api.Handle B R) × ((poll json api answer w t).1 ≡ pending t')
          × (poll json api answer w (abortable h id t)
              ≡ ((poll json api answer w t).0, pending (abortable h id t'))))
        ⊎ ((o : Outcome Value) × ((poll json api answer w t).1 ≡ ready o)
            × (poll json api answer w (abortable h id t)
                ≡ (release id (poll json api answer w t).0, ready o)))
  unfolding poll
  poll-abortable id h t w answer down =
      rw (down, poll) (after_abortable-cases id h (poll json api answer w t))
