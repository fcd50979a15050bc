-- ===== src/Transport/Answers.antt =====
-- What the server writes: src/transport.rs.
use tower_lsp.Base.{
  ◌++◌, [], ◌∷◌, ℕ, ◌≡◌, refl, List, Option, none, some, ok, err, All, All-append, All-set, All-get,
  All-of_get, get_elem?,
}
use tower_lsp.JsonRpc.Json.{Json}
use tower_lsp.JsonRpc.Request.{Request}
use tower_lsp.JsonRpc.Response.{Response}
use tower_lsp.JsonRpc.Router.{Router}
use tower_lsp.Service.Abort.{AbortApi}
use tower_lsp.Service.World.{World}
use tower_lsp.Service.Task.{Task, pending, ready}
use tower_lsp.Service.Polling.{poll}
use tower_lsp.Service.Lsp.{BoxService}
use tower_lsp.Service.Replies.Driven.{IsGoodRouter}
use tower_lsp.Service.System.{System, Slot, add_slot, set_slot, step}
use tower_lsp.Client.Oneshot.{OneshotApi}
use tower_lsp.Client.Waiters.{Pending}
use tower_lsp.JsonRpc.Message.{request}
use tower_lsp.Transport.Connection.{Reader, Step, read, serve, connect, response_of_task}
use tower_lsp.Transport.Invariants.{IsKnown, IsLasting, serve_keeps}
use tower_lsp.Transport.Sequential.{outcome_of, answers}
use tower_lsp.Transport.Slots.{SlotFits, poll-SlotFits, ready-SlotFits, call-SlotFits}

-- An answer to a known request, under the identifier of this request.
abbrev pub IsAnswerTo : {Value : Type 0} → (Request Value → Type 0) → Response Value → Type 0
IsAnswerTo {Value} Q r = (req : Request Value) × Q req × (req.id ≡ some r.id)

module _ {Value J R : Type 0} where
  -- Somewhere among the steps the request is read.
  abbrev pub IsRead : List (Step Value J R) → Request Value → Type 0
  IsRead es req = (i : ℕ) × (get_elem? es i ≡ some (read (ok (request req))))

  item-IsKnown :
      (es : List (Step Value J R)) (i : ℕ) (e : Step Value J R)
      → get_elem? es i ≡ some e
      → IsKnown (IsRead es) e
  item-IsKnown es i (read (ok (request req))) at = (i, at)
  item-IsKnown es i _ at = tt

module _ (json : Json) (api : AbortApi) {B R : Type 0} (Q : Request json.Value → Type 0) where
  open json use {Value}

  -- The task of a known request.
  abbrev IsAnswered : Slot api Value B R → Type 0
  IsAnswered s = (req : Request Value) × Q req × SlotFits json api B R req.id s

  outcome_of-IsAnswerTo :
      (s : Slot api Value B R) → IsAnswered s → All (IsAnswerTo Q) (outcome_of s)
  outcome_of-IsAnswerTo (ready (ok (some res))) (req, q, f) =
      ((req, q, ready-SlotFits json api B R req.id res f), tt)
  outcome_of-IsAnswerTo (ready (ok none)) a = tt
  outcome_of-IsAnswerTo (ready (err e)) a = tt
  outcome_of-IsAnswerTo (pending t) a = tt

  answers-IsAnswerTo :
      (slots : List (Slot api Value B R))
      → All IsAnswered slots
      → All (IsAnswerTo Q) (answers slots)
  unfolding answers
  answers-IsAnswerTo [] a = tt
  answers-IsAnswerTo (s ∷ slots) (a, rest) =
      All-append (IsAnswerTo Q) (outcome_of s) _ (outcome_of-IsAnswerTo s a)
        (answers-IsAnswerTo slots rest)

  abbrev IsHonest : System api Value B R → List (Response Value) → Type 0
  IsHonest s o = All IsAnswered s.slots

module _ (json : Json) {api : AbortApi} {S P B R : Type 0}
    (router : Router S (BoxService json.Value P B R)) (max : ℕ) (Q : Request json.Value → Type 0)
    (good : IsGoodRouter json api router) where
  open json use {Value}

  finished-IsHonest :
      (s : System api Value B R) (o : List (Response Value)) (i : ℕ) (answer : Option R)
      (t : Task Value api.Handle B R)
      → IsHonest json api Q s o
      → get_elem? s.slots i ≡ some (pending t)
      → IsHonest json api Q
          (set_slot s.slots i (poll json api answer s.world t))
          (o ++ response_of_task (poll json api answer s.world t).1)
  unfolding set_slot
  finished-IsHonest s o i answer t slots e =
      let (req, q, f) = All-get (IsAnswered json api Q) s.slots i (pending t) slots e in
      All-set (IsAnswered json api Q) s.slots i _ slots
        (req, q, poll-SlotFits json api B R req.id answer s.world t f)

  IsHonest-IsLasting : IsLasting json router max Q (IsHonest json api {B = B} {R = R} Q)
  unfolding step add_slot
  IsHonest-IsLasting = record {
    admitted = λ s o req h q.
        All-append (IsAnswered json api Q) s.slots _ h
          ((req, q, call-SlotFits json api B R router good req s.world), tt);
    finished = λ s o i answer t h e free. finished-IsHonest s o i answer t h e;
    failed = λ s o r h e. h;
  }

module _ (json : Json) {api : AbortApi} {channels : OneshotApi (Response json.Value)}
    {S P B R J : Type 0} (router : Router S (BoxService json.Value P B R)) (reader : Reader J)
    (max : ℕ) (good : IsGoodRouter json api router) where
  -- What the tasks have ended in answers requests that were read, if the handlers of the router
  -- answer by instances of `IntoResponse`.
  pub answers-IsCaused :
      (es : List (Step json.Value J R)) (w : World api) (p : Pending channels)
      → All
          (IsAnswerTo (IsRead es))
          (answers (serve json router reader max es (connect {B = B} w p)).system.slots)
  unfolding connect
  answers-IsCaused es w p = answers-IsAnswerTo json api (IsRead es) _ (
      serve_keeps json router reader max (IsRead es) (IsHonest json api (IsRead es))
        (IsHonest-IsLasting json router max (IsRead es) good) es (connect w p)
        (All-of_get (IsKnown (IsRead es)) es (item-IsKnown es)) refl tt)
