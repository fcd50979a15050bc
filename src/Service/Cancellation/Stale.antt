-- ===== src/Service/Cancellation/Stale.antt =====
-- An identifier that is used again before its cancelled future is polled: src/service/pending.rs.
use tower_lsp.Base.{◌≡◌, ◌∙◌, ap, true, false, none, some, arith, eq_iff}
use tower_lsp.Base.Map.{get, remove, get-remove}
use tower_lsp.JsonRpc.RequestId.{RequestId, Id_eq}
use tower_lsp.JsonRpc.Json.{Json}
use tower_lsp.Service.Abort.{AbortApi}
use tower_lsp.Service.World.{World}
use tower_lsp.Service.Task.{Task, abortable}
use tower_lsp.Service.Pending.{execute, cancel, release}
use tower_lsp.Service.Polling.{poll, poll-abortable_up}
use tower_lsp.Service.Cancellation.{IsWellFormed}

cancel-release :
    {api : AbortApi} (id : RequestId) (w : World api) → cancel id (release id w) ≡ release id w
unfolding cancel release
cancel-release id w =
    let gone : get id (remove id w.pending) ≡ none =
      ground (arith, get-remove id id w.pending, eq_iff id id) in
    rw (gone, cancel)

cancelled :
    {api : AbortApi} (id : RequestId) (h : api.Handle) (w : World api)
    → IsWellFormed w
    → get id w.pending ≡ some h
    → (get id (cancel id w).pending ≡ none)
      × api.Issued (cancel id w).flags h
      × (api.is_aborted (cancel id w).flags h ≡ true)
unfolding cancel
cancelled {api} id h w v e =
    rw (e, cancel)
      (
        ground (arith, get-remove id id w.pending, eq_iff id id),
        api.issued_abort _ h h (v.issued id h e),
        api.abort_self w.flags h,
      )

module _ (json : Json) (api : AbortApi) {B R : Type 0} where
  open json use {Value}

  -- The world after `again` was registered under a free identifier, and `old` polled, which had
  -- been registered under it with handle `h` and was cancelled.
  abbrev pub reused :
      RequestId
      → api.Handle
      → Task Value api.Handle B R
      → Task Value api.Handle B R
      → World api
      → World api
  reused id h old again c = (poll json api none (execute id again c).0 (abortable h id old)).0

  module _ (id : RequestId) (h : api.Handle) (old again : Task Value api.Handle B R) (c : World api)
      (free : get id c.pending ≡ none) (issued : api.Issued c.flags h)
      (up : api.is_aborted c.flags h ≡ true) where
    execute_flags : (execute id again c).0.flags ≡ (api.abortable c.flags).1
    unfolding execute
    execute_flags = rw (free, execute)

    still_up : api.is_aborted (execute id again c).0.flags h ≡ true
    still_up = rw execute_flags (api.abortable_other c.flags h issued ∙ up)

    reused_world : reused id h old again c ≡ release id (execute id again c).0
    reused_world = ap (λ p. p.0) (poll-abortable_up json api none _ h id old still_up)

    reused_lost :
        (k : api.Handle) × ((execute id again c).1 ≡ abortable k id again)
        × (api.is_aborted (reused id h old again c).flags k ≡ false)
        × (cancel id (reused id h old again c) ≡ reused id h old again c)
    unfolding execute release
    reused_lost = (
      (api.abortable c.flags).0,
      rw (free, execute),
      rw reused_world (rw execute_flags (api.abortable_down c.flags)),
      rw reused_world (cancel-release id _),
    )

  -- If a registered request of a well-formed table is cancelled and its identifier used again for
  -- `again` before its own future is polled, then the poll of that future removes the entry of
  -- `again`: `again` is in flight under a handle whose flag is down, and cancelling its
  -- identifier changes nothing.
  pub cancel-reused :
      (id : RequestId) (h : api.Handle) (old again : Task Value api.Handle B R) (w : World api)
      → IsWellFormed w
      → get id w.pending ≡ some h
      → (k : api.Handle) × ((execute id again (cancel id w)).1 ≡ abortable k id again)
        × (api.is_aborted (reused id h old again (cancel id w)).flags k ≡ false)
        × (cancel id (reused id h old again (cancel id w)) ≡ reused id h old again (cancel id w))
  cancel-reused id h old again w v e =
      let (free, issued, up) = cancelled id h w v e in
      reused_lost id h old again (cancel id w) free issued up
