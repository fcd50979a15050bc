-- ===== src/Service/Pending.antt =====
-- Cancellable requests of the client: src/service/pending.rs.
use tower_lsp.Base.{◌≡◌, none, some, ok, [], ◌∷◌}
use tower_lsp.Base.Map.{Map, get, insert, remove}
use tower_lsp.JsonRpc.RequestId.{RequestId, Id_eq}
use tower_lsp.JsonRpc.Error.{invalid_request_object, request_cancelled_object}
use tower_lsp.JsonRpc.Response.{from_error}
use tower_lsp.Service.Abort.{AbortApi}
use tower_lsp.Service.World.{World}
use tower_lsp.Service.Task.{Task, Outcome, done, abortable}

module _ {api : AbortApi} {Value B R : Type 0} where
  -- `execute`, up to the future that it returns: the entry is made at once.
  unfoldable pub execute :
      RequestId → Task Value api.Handle B R → World api → World api × Task Value api.Handle B R
  execute id fut w = elim (get id w.pending) [
    | none ↦
        let (h, fl) = api.abortable w.flags in
        (record w { pending = insert id h w.pending; flags = fl }, abortable h id fut)
    | some _ ↦ (w, done (ok (some (from_error id invalid_request_object))))
  ]

-- The world with an entry for `id`, under a new handle.
abbrev pub enter : {api : AbortApi} → RequestId → World api → World api
enter {api} id w = record w {
  pending = insert id (api.abortable w.flags).0 w.pending;
  flags = (api.abortable w.flags).1;
}

pub execute_free :
    {api : AbortApi} {Value B R : Type 0} (id : RequestId) (t : Task Value api.Handle B R)
    (w : World api)
    → get id w.pending ≡ none
    → execute id t w ≡ (enter id w, abortable (api.abortable w.flags).0 id t)
unfolding execute
execute_free id t w free = rw (free, execute)

-- How the future of `execute` ends where it was aborted.
unfoldable pub aborted_outcome : {Value : Type 0} → RequestId → Outcome Value
aborted_outcome id = ok (some (from_error id request_cancelled_object))

unfoldable pub abort_all : (api : AbortApi) → Map RequestId api.Handle → api.Flags → api.Flags
abort_all api [] fl = fl
abort_all api ((id, h) ∷ m) fl = abort_all api m (api.abort h fl)

module _ {api : AbortApi} where
  unfoldable pub release : RequestId → World api → World api
  release id w = record w { pending = remove id w.pending }

  unfoldable pub cancel : RequestId → World api → World api
  unfolding release
  cancel id w = elim (get id w.pending) [
    | some h ↦ record w { pending = remove id w.pending; flags = api.abort h w.flags }
    | none ↦ w
  ]

  unfoldable pub cancel_all : World api → World api
  unfolding abort_all
  cancel_all w = record w { pending = []; flags = abort_all api w.pending w.flags }
