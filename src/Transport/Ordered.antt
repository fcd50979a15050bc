-- ===== src/Transport/Ordered.antt =====
-- A server that works on one request at a time: src/transport.rs.
use tower_lsp.Base.{
  ℕ, ◌≡◌, refl, sym, ap, ◌∙◌, subst, true, List, [], ◌∷◌, ◌++◌, some, get_elem?, ltb→lt, All,
  All-append,
}
use tower_lsp.JsonRpc.Json.{Json}
use tower_lsp.JsonRpc.Request.{Request}
use tower_lsp.JsonRpc.Response.{Response}
use tower_lsp.JsonRpc.Router.{Router}
use tower_lsp.Service.Abort.{AbortApi}
use tower_lsp.Service.World.{World}
use tower_lsp.Service.Task.{Task, pending, Polled}
use tower_lsp.Service.Polling.{poll}
use tower_lsp.Service.Lsp.{BoxService, call}
use tower_lsp.Service.System.{System, set_slot, step, add_slot, called}
use tower_lsp.Client.Oneshot.{OneshotApi}
use tower_lsp.Client.Waiters.{Pending}
use tower_lsp.Transport.Invariants.{HasNullId, IsLasting, serve_keeps, step-IsKnown}
use tower_lsp.Transport.Merged.{Merged, nothing, Merged-append_left, Merged-append_right}
use tower_lsp.Transport.Sequential.{
  IsInOrder, response_of_task-outcome_of, answers, answers-append_pending, append-IsInOrder,
  set-IsInOrder, answers-set,
}
use tower_lsp.Transport.Connection.{Reader, Step, connect, serve, response_of_task, is_in_progress}

-- The tasks are done in their order, and their answers are written in it, among the answers to
-- messages that were not decoded.
pub record IsOrdered {api : AbortApi} {Value B R : Type 0} (s : System api Value B R)
    (output : List (Response Value)) : Type 0 where
  pub in_order : IsInOrder s.slots
  pub errors : List (Response Value)
  pub without_id : All HasNullId errors
  pub merged : Merged errors (answers s.slots) output

module _ (json : Json) {api : AbortApi} {S P B R : Type 0}
    (router : Router S (BoxService json.Value P B R)) where
  open json use {Value}

  admitted-IsOrdered :
      (s : System api Value B R) (o : List (Response Value)) (req : Request Value)
      → IsOrdered s o
      → IsOrdered (step json router (called req) s) o
  unfolding step add_slot
  admitted-IsOrdered s o req h = record {
    in_order = append-IsInOrder s.slots _ h.in_order;
    errors = h.errors;
    without_id = h.without_id;
    merged =
        subst (λ a. Merged h.errors a o)
          (sym (answers-append_pending s.slots (call json router req s.world).1)) h.merged;
  }

  finished-IsOrdered :
      (s : System api Value B R) (o : List (Response Value)) (i : ℕ) (t : Task Value api.Handle B R)
      (p : Polled api Value B R)
      → IsOrdered s o
      → get_elem? s.slots i ≡ some (pending t)
      → is_in_progress 1 i s.slots ≡ true
      → IsOrdered (set_slot s.slots i p) (o ++ response_of_task p.1)
  unfolding set_slot is_in_progress
  finished-IsOrdered s o i t (w, p) h e free = record {
    in_order = set-IsInOrder s.slots i p (ltb→lt _ _ free) h.in_order t e;
    errors = h.errors;
    without_id = h.without_id;
    merged =
        subst (λ a. Merged h.errors a (o ++ response_of_task p))
          (sym (
            answers-set s.slots i p (ltb→lt _ _ free) h.in_order t e
            ∙ ap (λ l. answers s.slots ++ l) (sym (response_of_task-outcome_of p))))
          (Merged-append_right (response_of_task p) h.merged);
  }

  failed-IsOrdered :
      (s : System api Value B R) (o : List (Response Value)) (r : Response Value)
      → IsOrdered s o
      → HasNullId r
      → IsOrdered s (o ++ r ∷ [])
  failed-IsOrdered s o r h e = record {
    in_order = h.in_order;
    errors = h.errors ++ r ∷ [];
    without_id = All-append HasNullId h.errors _ h.without_id (e, tt);
    merged = Merged-append_left r h.merged;
  }

  IsOrdered-IsLasting :
      IsLasting json router 1 (λ req. Unit) (IsOrdered {api = api} {B = B} {R = R})
  IsOrdered-IsLasting = record {
    admitted = λ s o req h q. admitted-IsOrdered s o req h;
    finished = λ s o i answer t h e free.
        finished-IsOrdered s o i t (poll json api answer s.world t) h e free;
    failed = failed-IsOrdered;
  }

module _ (json : Json) {api : AbortApi} {channels : OneshotApi (Response json.Value)}
    {S P B R J : Type 0} (router : Router S (BoxService json.Value P B R)) (reader : Reader J) where
  -- With a concurrency level of 1 the server works like a sequential one: at any time the tasks
  -- that are done are the first ones, in the order of their requests, and the output is made of
  -- their answers in this order and of answers with the null identifier.
  pub connect-IsOrdered :
      (es : List (Step json.Value J R)) (w : World api) (p : Pending channels)
      → IsOrdered
          (serve json router reader 1 es (connect {B = B} w p)).system
          (serve json router reader 1 es (connect {B = B} w p)).output
  unfolding connect answers
  connect-IsOrdered es w p =
      serve_keeps json router reader 1 (λ req. Unit) IsOrdered (IsOrdered-IsLasting json router) es
        (connect w p) (step-IsKnown es) refl
        (record { in_order = tt; errors = []; without_id = tt; merged = nothing })
