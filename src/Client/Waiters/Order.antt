-- ===== src/Client/Waiters/Order.antt =====
-- First come, first served: src/service/client/pending.rs.
use tower_lsp.Base.{
  ◌≡◌, refl, ap, ◌≢◌, ◌⊎◌, inl, inr, true, false, List, [], ◌∷◌, ◌++◌, Option, none, some, arith,
  Option-cases, eq_iff,
}
use tower_lsp.Base.Map.{Map, get, insert, remove, get-insert, get-remove}
use tower_lsp.JsonRpc.RequestId.{RequestId, number, string, null, Id_eq}
use tower_lsp.JsonRpc.Response.{Response}
use tower_lsp.Client.Oneshot.{OneshotApi}
use tower_lsp.Client.Waiters.{
  Pending, deliver, take_first, insert_known, insert_for, insert_response, wait, with_waiter,
}

abbrev pub listed : {T : Type 0} → Option (List T) → List T
listed none = []
listed (some txs) = txs

listed-with_waiter :
    {T : Type 0} (o : Option (List T)) (tx : T) → with_waiter o tx ≡ listed o ++ tx ∷ []
listed-with_waiter none tx = refl
listed-with_waiter (some txs) tx = refl

module _ {Value : Type 0} {api : OneshotApi (Response Value)} where
  -- The waiters for an identifier, in the order in which they came.
  abbrev pub queue : RequestId → Pending api → List api.Sender
  queue id p = listed (get id p.waiters)

  -- Seen as queues, one for each identifier: `wait` puts the new waiter at the end of the queue
  -- of its identifier, and leaves every other queue as it is.
  pub queue-wait :
      (id : RequestId) (p : Pending api)
      → (queue id (wait id p).1 ≡ queue id p ++ (wait id p).0 ∷ [])
        × ((j : RequestId) → id ≢ j → queue j (wait id p).1 ≡ queue j p)
  unfolding wait
  queue-wait id p = (
    rw
        (
          get-insert id id (with_waiter (get id p.waiters) (api.channel p.channels).0) p.waiters,
          (eq_iff id id).1 refl,
        )
        (listed-with_waiter (get id p.waiters) (api.channel p.channels).0),
    λ j other.
        rw (get-insert id j (with_waiter (get id p.waiters) (api.channel p.channels).0) p.waiters)
          (ground (arith, eq_iff id j)),
  )

  deliver_dropped :
      (tx : api.Sender) (r : Response Value) (m : Map RequestId (List api.Sender)) (p : Pending api)
      → api.is_dropped p.channels tx ≡ true
      → deliver tx r m p ≡ none
  unfolding deliver
  deliver_dropped tx r m p d = rw (api.send_dropped tx r p.channels d) refl

  -- What is left after an answer `r` was given to the first waiter `tx`, with `txs` behind it.
  pub record IsServed (id : RequestId) (r : Response Value) (tx : api.Sender)
      (txs : List api.Sender) (p p' : Pending api) : Type 0 where
    pub answered : api.received p'.channels tx ≡ some r
    pub behind : queue id p' ≡ txs
    pub others : (j : RequestId) → id ≢ j → queue j p' ≡ queue j p

  deliver_alive :
      (tx : api.Sender) (r : Response Value) (m : Map RequestId (List api.Sender)) (p : Pending api)
      → api.is_dropped p.channels tx ≡ false
      → (p' : Pending api) × (deliver tx r m p ≡ some p')
        × (p'.waiters ≡ m)
        × (api.received p'.channels tx ≡ some r)
  unfolding deliver
  deliver_alive tx r m p alive =
      let (ch', sent, got) = api.send_alive tx r p.channels alive in
      (record { waiters = m; channels = ch' }, rw (sent) refl, refl, got)

  take_first-IsServed :
      (id : RequestId) (tx : api.Sender) (txs : List api.Sender) (r : Response Value)
      (p : Pending api)
      → api.is_dropped p.channels tx ≡ false
      → (p' : Pending api) × (take_first id (tx ∷ txs) r p ≡ some p') × IsServed id r tx txs p p'
  unfolding take_first
  take_first-IsServed id tx [] r p alive =
      let (p', e, m, got) = deliver_alive tx r (remove id p.waiters) p alive in
      (
        p',
        e,
        record {
          answered = got;
          behind = rw (m, get-remove id id p.waiters, (eq_iff id id).1 refl) refl;
          others = λ j other. rw (m, get-remove id j p.waiters) (ground (arith, eq_iff id j));
        },
      )
  take_first-IsServed id tx (tx' ∷ txs) r p alive =
      let (p', e, m, got) = deliver_alive tx r (insert id (tx' ∷ txs) p.waiters) p alive in
      (
        p',
        e,
        record {
          answered = got;
          behind = rw (m, get-insert id id (tx' ∷ txs) p.waiters, (eq_iff id id).1 refl) refl;
          others = λ j other.
              rw (m, get-insert id j (tx' ∷ txs) p.waiters) (ground (arith, eq_iff id j));
        },
      )

  take_first_dropped :
      (id : RequestId) (tx : api.Sender) (txs : List api.Sender) (r : Response Value)
      (p : Pending api)
      → api.is_dropped p.channels tx ≡ true
      → take_first id (tx ∷ txs) r p ≡ none
  unfolding take_first
  take_first_dropped id tx [] r p d = deliver_dropped tx r _ p d
  take_first_dropped id tx (tx' ∷ txs) r p d = deliver_dropped tx r _ p d

  insert_for_eq :
      (id : RequestId) (r : Response Value) (p : Pending api)
      → id ≢ null
      → insert_for id r p ≡ insert_known id r p
  unfolding insert_for
  insert_for_eq null r p e = absurd (e refl)
  insert_for_eq (number n) r p e = refl
  insert_for_eq (string s) r p e = refl

  insert_for_unknown :
      (id : RequestId) (r : Response Value) (p : Pending api)
      → get id p.waiters ≡ none
      → insert_for id r p ≡ some p
  unfolding insert_for insert_known
  insert_for_unknown null r p e = refl
  insert_for_unknown (number n) r p e = rw (e, insert_known) refl
  insert_for_unknown (string s) r p e = rw (e, insert_known) refl

  -- An answer whose identifier is not null and has waiters goes to the first of them, if this
  -- one's receiver is there still: it has received the answer, the others behind it wait in the
  -- same order, and every other queue is as it was.
  pub insert_response-IsServed :
      (r : Response Value) (tx : api.Sender) (txs : List api.Sender) (p : Pending api)
      → r.id ≢ null
      → queue r.id p ≡ tx ∷ txs
      → api.is_dropped p.channels tx ≡ false
      → (p' : Pending api) × (insert_response r p ≡ some p') × IsServed r.id r tx txs p p'
  unfolding insert_response insert_known
  insert_response-IsServed r tx txs p other e alive = elim (Option-cases (get r.id p.waiters)) [
    | inl free ↦ absurd (ground (arith, e, free))
    | inr (all, there) ↦
        let same : all ≡ tx ∷ txs = ground (arith, e, there) in
        rw (insert_for_eq r.id r p other, there, insert_known, same)
          (take_first-IsServed r.id tx txs r p alive)
  ]

  -- An answer with the identifier null, or one that nothing waits for, is ignored.
  pub insert_response-ignored :
      (r : Response Value) (p : Pending api)
      → (r.id ≡ null) ⊎ (get r.id p.waiters ≡ none)
      → insert_response r p ≡ some p
  unfolding insert_response insert_for
  insert_response-ignored r p (inl e) = ap (λ id. insert_for id r p) e
  insert_response-ignored r p (inr e) = insert_for_unknown r.id r p e

  -- An answer panics if the first waiter for its identifier, which is not null, has dropped its
  -- receiver.
  pub insert_response-dropped :
      (r : Response Value) (tx : api.Sender) (txs : List api.Sender) (p : Pending api)
      → r.id ≢ null
      → queue r.id p ≡ tx ∷ txs
      → api.is_dropped p.channels tx ≡ true
      → insert_response r p ≡ none
  unfolding insert_response insert_known
  insert_response-dropped r tx txs p other e d = elim (Option-cases (get r.id p.waiters)) [
    | inl free ↦ absurd (ground (arith, e, free))
    | inr (all, there) ↦
        let same : all ≡ tx ∷ txs = ground (arith, e, there) in
        rw (insert_for_eq r.id r p other, there, insert_known, same)
          (take_first_dropped r.id tx txs r p d)
  ]
