-- ===== src/Client/Waiters/Filled.antt =====
-- That no identifier has an entry without a waiter: src/service/client/pending.rs.
use tower_lsp.Base.{
  ◌≡◌, sym, subst, ap, ◌≢◌, inl, inr, List, [], ◌∷◌, Option, none, some, arith, Option-cases,
}
use mathlib.Core.Option.{some-injective}
use tower_lsp.Base.Map.{Map, get, insert, remove, get-insert, get-remove}
use tower_lsp.JsonRpc.RequestId.{RequestId, number, string, null, Id_eq}
use tower_lsp.JsonRpc.Response.{Response}
use tower_lsp.Client.Oneshot.{OneshotApi}
use tower_lsp.Client.Waiters.{
  Pending, new, deliver, take_first, insert_known, insert_for, insert_response, wait, with_waiter,
}

with_waiter_filled : {T : Type 0} (o : Option (List T)) (tx : T) → with_waiter o tx ≢ []
with_waiter_filled none tx e = absurd (cc)
with_waiter_filled (some []) tx e = absurd (cc)
with_waiter_filled (some (x ∷ xs)) tx e = absurd (cc)

module _ {Value : Type 0} {api : OneshotApi (Response Value)} where
  -- No entry is empty.
  abbrev pub HasNoEmpty : Pending api → Type 0
  HasNoEmpty p = (id : RequestId) → get id p.waiters ≢ some []

  wait-HasNoEmpty : (id : RequestId) (p : Pending api) → HasNoEmpty p → HasNoEmpty (wait id p).1
  unfolding wait
  wait-HasNoEmpty id p h j e = ground (
    arith,
    get-insert id j (with_waiter (get id p.waiters) (api.channel p.channels).0) p.waiters,
    with_waiter_filled (get id p.waiters) (api.channel p.channels).0,
    h j,
    e,
  )

  -- The tables that the program can make.
  pub data Reachable : Pending api → Type 0 where
    start : (channels : api.Channels) → Reachable (new api channels)
    waited : {p : Pending api} (id : RequestId) → Reachable p → Reachable (wait id p).1
    answered :
        {p p' : Pending api} (r : Response Value)
        → Reachable p
        → insert_response r p ≡ some p'
        → Reachable p'

  deliver-waiters :
      (tx : api.Sender) (r : Response Value) (m : Map RequestId (List api.Sender))
      (p p' : Pending api)
      → deliver tx r m p ≡ some p'
      → p'.waiters ≡ m
  unfolding deliver
  deliver-waiters tx r m p p' e = elim (Option-cases (api.send tx r p.channels)) [
    | inl failed ↦
        let e' : ◌≡◌ {A = Option (Pending api)} none (some p') = rw (failed) at e in absurd (cc)
    | inr (ch, sent) ↦
        let e' : some (record { waiters = m; channels = ch }) ≡ some p' = rw (sent) at e in
        ap (λ q. q.waiters) (sym (some-injective _ p' e'))
  ]

  take_first-HasNoEmpty :
      (id : RequestId) (txs : List api.Sender) (r : Response Value) (p p' : Pending api)
      → HasNoEmpty p
      → take_first id txs r p ≡ some p'
      → HasNoEmpty p'
  unfolding take_first
  take_first-HasNoEmpty id [] r p p' h e j empty = absurd (cc)
  take_first-HasNoEmpty id (tx ∷ []) r p p' h e j empty =
      let m = deliver-waiters tx r (remove id p.waiters) p p' e in
      ground (arith, h j, get-remove id j p.waiters, ap (get j) m, empty)
  take_first-HasNoEmpty id (tx ∷ tx' ∷ txs) r p p' h e j empty =
      let m = deliver-waiters tx r (insert id (tx' ∷ txs) p.waiters) p p' e in
      ground (arith, h j, get-insert id j (tx' ∷ txs) p.waiters, ap (get j) m, empty)

  insert_known-HasNoEmpty :
      (id : RequestId) (r : Response Value) (p p' : Pending api)
      → HasNoEmpty p
      → insert_known id r p ≡ some p'
      → HasNoEmpty p'
  unfolding insert_known
  insert_known-HasNoEmpty id r p p' h e = elim (Option-cases (get id p.waiters)) [
    | inl free ↦ subst HasNoEmpty (some-injective p p' (rw (free, insert_known) at e)) h
    | inr (txs, there) ↦ take_first-HasNoEmpty id txs r p p' h (rw (there, insert_known) at e)
  ]

  insert_for-HasNoEmpty :
      (id : RequestId) (r : Response Value) (p p' : Pending api)
      → HasNoEmpty p
      → insert_for id r p ≡ some p'
      → HasNoEmpty p'
  unfolding insert_for
  insert_for-HasNoEmpty null r p p' h e = subst HasNoEmpty (some-injective p p' e) h
  insert_for-HasNoEmpty (number n) r p p' h e = insert_known-HasNoEmpty (number n) r p p' h e
  insert_for-HasNoEmpty (string s) r p p' h e = insert_known-HasNoEmpty (string s) r p p' h e

  -- From a new table on, through any calls of `wait` and any answers, no identifier has an entry
  -- without a waiter, so that the removal of the first waiter of an entry does not panic.
  pub Reachable-HasNoEmpty : {p : Pending api} → Reachable p → HasNoEmpty p
  unfolding new get insert_response
  Reachable-HasNoEmpty (start channels) id e = absurd (cc)
  Reachable-HasNoEmpty (waited {p} id t) j empty =
      wait-HasNoEmpty id p (Reachable-HasNoEmpty t) j empty
  Reachable-HasNoEmpty (answered {p} {p'} r t e) j empty =
      insert_for-HasNoEmpty r.id r p p' (Reachable-HasNoEmpty t) e j empty
