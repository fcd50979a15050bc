-- ===== src/Transport/Slots.antt =====
-- What the task of a request leaves: src/transport.rs, src/service.rs.
use tower_lsp.Base.{
  ◌≡◌, refl, sym, subst, ap, ◌⊎◌, inl, inr, false, Option, none, some, arith, ok, Bool-cases,
  String_eq, ◌==◌,
}
use tower_lsp.Base.Map.{get}
use tower_lsp.JsonRpc.RequestId.{RequestId}
use tower_lsp.JsonRpc.Json.{Json}
use tower_lsp.JsonRpc.Request.{Request}
use tower_lsp.JsonRpc.Response.{Response}
use tower_lsp.JsonRpc.Router.{Router, route}
use tower_lsp.JsonRpc.Router.Calls.{Answers}
use tower_lsp.Service.State.{exited, State_eq}
use tower_lsp.Service.Abort.{AbortApi}
use tower_lsp.Service.World.{World}
use tower_lsp.Service.Task.{Task, pending, ready, done, filtering}
use tower_lsp.Service.Polling.{poll, filter_response}
use tower_lsp.Service.Layers.{call_exit}
use tower_lsp.Service.Lsp.{BoxService, exit, call, call_routed, call_service}
use tower_lsp.Service.Replies.Driven.{IsGoodRouter, ServedPoll, poll-Served, is_exit, call-Served}
use tower_lsp.Service.System.{Slot}

filter_response-eq-some :
    (json : Json) (r : Option (Response json.Value)) (res : Response json.Value)
    → some res ≡ filter_response json r
    → r ≡ some res
unfolding filter_response
filter_response-eq-some json none res e = absurd (cc)
filter_response-eq-some json (some r) res e = ground arith

Answers-some :
    {Value : Type 0} (oid : Option RequestId) (res : Response Value)
    → Answers oid (some res)
    → oid ≡ some res.id
Answers-some none res a = absurd a
Answers-some (some i) res a = ap some (sym a)

module _ (json : Json) (api : AbortApi) (B R : Type 0) where
  open json use {Value}

  -- The future of `exit`, which ends in no answer.
  abbrev pub IsSilent : Slot api Value B R → Type 0
  IsSilent (pending t) = t ≡ filtering (done (ok none))
  IsSilent (ready o) = o ≡ ok none

  abbrev pub SlotFits : Option RequestId → Slot api Value B R → Type 0
  SlotFits oid s = ServedPoll json api oid s ⊎ IsSilent s

  poll-IsSilent :
      (answer : Option R) (w : World api)
      → IsSilent (poll json api {B = B} answer w (filtering (done (ok none)))).1
  unfolding poll filter_response
  poll-IsSilent answer w = refl

  pub poll-SlotFits :
      (oid : Option RequestId) (answer : Option R) (w : World api) (t : Task Value api.Handle B R)
      → SlotFits oid (pending t)
      → SlotFits oid (poll json api answer w t).1
  poll-SlotFits oid answer w t (inl s) = inl (poll-Served json api oid answer w t s)
  poll-SlotFits oid answer w t (inr e) =
      inr (subst (λ u. IsSilent (poll json api answer w u).1) (sym e) (poll-IsSilent answer w))

  pub ready-SlotFits :
      (oid : Option RequestId) (res : Response Value)
      → SlotFits oid (ready (ok (some res)))
      → oid ≡ some res.id
  ready-SlotFits oid res (inl (r, a, e)) =
      Answers-some oid res (subst (Answers oid) (filter_response-eq-some json r res e) a)
  ready-SlotFits oid res (inr e) = absurd (cc)

  module _ {S P : Type 0} (router : Router S (BoxService Value P B R))
      (good : IsGoodRouter json api router) (req : Request Value) (w : World api) where
    exit-IsSilent :
        get req.method router.methods ≡ some exit
        → w.state == exited ≡ false
        → IsSilent (pending (call json router req w).1)
    unfolding call route call_routed call_service call_exit
    exit-IsSilent known there = rw (there, call) (rw (known, route) refl)

    pub call-SlotFits : SlotFits req.id (pending (call json router req w).1)
    unfolding call
    call-SlotFits = elim (is_exit (get req.method router.methods)) [
      | inr other ↦ inl (call-Served json api router good req w other)
      | inl known ↦ elim (Bool-cases (w.state == exited)) [
        | inl gone ↦ inl (rw (gone, call) refl)
        | inr there ↦ inr (exit-IsSilent known there)
      ]
    ]
