-- ===== src/Transport/Sequential.antt =====
-- The order of the answers: `buffer_unordered` in src/transport.rs.
use mathlib.Core.List.{append_assoc, append-nil}
use tower_lsp.Base.{
  ℕ, zero, suc, ◌<◌, ◌≡◌, refl, sym, ◌∙◌, ap, List, [], ◌∷◌, ◌++◌, none, some, ok, err, get_elem?,
  set, arith, All, All-append,
}
use tower_lsp.JsonRpc.Response.{Response}
use tower_lsp.Service.Task.{Poll, pending, ready, Outcome}
use tower_lsp.Transport.Connection.{running_before, response_of_task}

module _ {T Value : Type 0} where
  abbrev pub IsPending : Poll T (Outcome Value) → Type 0
  IsPending (pending t) = Unit
  IsPending (ready o) = ⊥

  -- The first tasks are done, and the others are not.
  abbrev pub IsInOrder : List (Poll T (Outcome Value)) → Type 0
  IsInOrder [] = Unit
  IsInOrder (pending t ∷ xs) = All IsPending xs
  IsInOrder (ready o ∷ xs) = IsInOrder xs

  -- What a task that is done has ended in.
  abbrev pub outcome_of : Poll T (Outcome Value) → List (Response Value)
  outcome_of (pending t) = []
  outcome_of (ready (err e)) = []
  outcome_of (ready (ok none)) = []
  outcome_of (ready (ok (some r))) = r ∷ []

  pub response_of_task-outcome_of : (p : Poll T (Outcome Value)) → response_of_task p ≡ outcome_of p
  unfolding response_of_task
  response_of_task-outcome_of (pending t) = refl
  response_of_task-outcome_of (ready (err e)) = refl
  response_of_task-outcome_of (ready (ok none)) = refl
  response_of_task-outcome_of (ready (ok (some r))) = refl

  -- What the tasks have ended in, in their order.
  unfoldable pub answers : List (Poll T (Outcome Value)) → List (Response Value)
  answers [] = []
  answers (x ∷ xs) = outcome_of x ++ answers xs

  answers-pending : (xs : List (Poll T (Outcome Value))) → All IsPending xs → answers xs ≡ []
  unfolding answers
  answers-pending [] h = refl
  answers-pending (pending t ∷ xs) h = answers-pending xs h.1
  answers-pending (ready o ∷ xs) h = absurd h.0

  pub answers-append_pending :
      (xs : List (Poll T (Outcome Value))) (t : T) → answers (xs ++ pending t ∷ []) ≡ answers xs
  unfolding answers
  answers-append_pending [] t = refl
  answers-append_pending (x ∷ xs) t = ap (λ a. outcome_of x ++ a) (answers-append_pending xs t)

  IsInOrder-pending : (xs : List (Poll T (Outcome Value))) → All IsPending xs → IsInOrder xs
  IsInOrder-pending [] h = tt
  IsInOrder-pending (pending t ∷ xs) h = h.1
  IsInOrder-pending (ready o ∷ xs) h = absurd h.0

  pub append-IsInOrder :
      (xs : List (Poll T (Outcome Value))) (t : T) → IsInOrder xs → IsInOrder (xs ++ pending t ∷ [])
  append-IsInOrder [] t h = tt
  append-IsInOrder (pending u ∷ xs) t h = All-append IsPending xs _ h (tt, tt)
  append-IsInOrder (ready o ∷ xs) t h = append-IsInOrder xs t h

  pub set-IsInOrder :
      (xs : List (Poll T (Outcome Value))) (i : ℕ) (p : Poll T (Outcome Value))
      → running_before i xs < 1
      → IsInOrder xs
      → (t : T) → get_elem? xs i ≡ some (pending t)
      → IsInOrder (set xs i p)
  set-IsInOrder [] i p lt h t e = h
  set-IsInOrder (pending u ∷ xs) zero (pending v) lt h t e = h
  set-IsInOrder (pending u ∷ xs) zero (ready o) lt h t e = IsInOrder-pending xs h
  set-IsInOrder (ready o ∷ xs) zero p lt h t e = absurd (cc)
  set-IsInOrder (pending u ∷ xs) (suc i) p lt h t e = absurd (omega arith)
  set-IsInOrder (ready o ∷ xs) (suc i) p lt h t e = set-IsInOrder xs i p (omega arith) h t e

  pub answers-set :
      (xs : List (Poll T (Outcome Value))) (i : ℕ) (p : Poll T (Outcome Value))
      → running_before i xs < 1
      → IsInOrder xs
      → (t : T) → get_elem? xs i ≡ some (pending t)
      → answers (set xs i p) ≡ answers xs ++ outcome_of p
  unfolding answers
  answers-set [] i p lt h t e = absurd (cc)
  answers-set (pending u ∷ xs) zero p lt h t e =
      rw (answers-pending xs h) (append-nil (outcome_of p))
  answers-set (ready o ∷ xs) zero p lt h t e = absurd (cc)
  answers-set (pending u ∷ xs) (suc i) p lt h t e = absurd (omega arith)
  answers-set (ready o ∷ xs) (suc i) p lt h t e =
      ap (λ a. outcome_of (ready o) ++ a) (answers-set xs i p (omega arith) h t e)
      ∙ sym (append_assoc (outcome_of (ready o)) (answers xs) (outcome_of p))
