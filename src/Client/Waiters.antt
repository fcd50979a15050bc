-- ===== src/Client/Waiters.antt =====
-- The waiters for answers of the client: src/service/client/pending.rs. `none` is a panic.
pub mod Order
pub mod Filled
use tower_lsp.Base.{String, List, [], ◌∷◌, ◌++◌, Option, none, some}
use tower_lsp.Base.Options.{◌>>=◌}
use tower_lsp.Base.Map.{Map, get, insert, remove}
use tower_lsp.JsonRpc.RequestId.{RequestId, number, string, null, Id_eq}
use tower_lsp.JsonRpc.Response.{Response}
use tower_lsp.Client.Oneshot.{OneshotApi}

-- `Pending`, with the channels that its senders belong to.
pub record Pending {A : Type 0} (api : OneshotApi A) : Type 0 where
  pub waiters : Map RequestId (List api.Sender)
  pub channels : api.Channels

unfoldable pub new : {A : Type 0} (api : OneshotApi A) → api.Channels → Pending api
new api channels = record { waiters = []; channels = channels }

abbrev pub with_waiter : {T : Type 0} → Option (List T) → T → List T
with_waiter none tx = tx ∷ []
with_waiter (some txs) tx = txs ++ tx ∷ []

module _ {Value : Type 0} {api : OneshotApi (Response Value)} where
  -- `tx.send(r).expect(..)`, with the table as it is by then.
  unfoldable pub deliver :
      api.Sender
      → Response Value
      → Map RequestId (List api.Sender)
      → Pending api
      → Option (Pending api)
  deliver tx r waiters p = do
    channels' ← api.send tx r p.channels
    some (record { waiters = waiters; channels = channels' })

  -- The entry of an identifier: the first waiter is taken out, and an entry with one is removed.
  unfoldable pub take_first :
      RequestId → List api.Sender → Response Value → Pending api → Option (Pending api)
  unfolding deliver
  take_first id [] r p = none
  take_first id (tx ∷ []) r p = deliver tx r (remove id p.waiters) p
  take_first id (tx ∷ tx' ∷ txs) r p = deliver tx r (insert id (tx' ∷ txs) p.waiters) p

  unfoldable pub insert_known : RequestId → Response Value → Pending api → Option (Pending api)
  unfolding take_first
  insert_known id r p = elim (get id p.waiters) [ none ↦ some p | some txs ↦ take_first id txs r p ]

  unfoldable pub insert_for : RequestId → Response Value → Pending api → Option (Pending api)
  unfolding insert_known
  insert_for null r p = some p
  insert_for id r p = insert_known id r p

  unfoldable pub insert_response : Response Value → Pending api → Option (Pending api)
  unfolding insert_for
  insert_response r p = insert_for r.id r p

  -- The table behind `wait`, and the channel that its future reads.
  unfoldable pub wait : RequestId → Pending api → api.Sender × Pending api
  wait id p =
      let (tx, ch) = api.channel p.channels in
      (
        tx,
        record { waiters = insert id (with_waiter (get id p.waiters) tx) p.waiters; channels = ch },
      )
