-- ===== src/Transport/Running.antt =====
-- How many tasks are running: `buffer_unordered` in src/transport.rs.
use tower_lsp.Base.{
  ℕ, zero, suc, ◌≤◌, ◌≡◌, refl, true, List, [], ◌∷◌, Option, some, get_elem?, set, length, arith,
}
use tower_lsp.Service.Task.{Poll, pending, ready}
use tower_lsp.Transport.Connection.{running_before, are_done}

abbrev pub IsEnded : {T A : Type 0} → Option (Poll T A) → Type 0
IsEnded (some (pending t)) = ⊥
IsEnded _ = Unit

module _ {T A : Type 0} where
  pub running_before-set :
      (i : ℕ) (xs : List (Poll T A)) (o : A)
      → running_before (suc i) (set xs i (ready o)) ≡ running_before i xs
  running_before-set zero [] o = refl
  running_before-set zero (x ∷ xs) o = refl
  running_before-set (suc i) [] o = refl
  running_before-set (suc i) (x ∷ xs) o = omega (arith, running_before-set i xs o)

  pub running_before-suc :
      (i : ℕ) (xs : List (Poll T A))
      → IsEnded (get_elem? xs i)
      → running_before (suc i) xs ≡ running_before i xs
  running_before-suc zero [] h = refl
  running_before-suc zero (pending t ∷ xs) h = absurd h
  running_before-suc zero (ready o ∷ xs) h = refl
  running_before-suc (suc i) [] h = refl
  running_before-suc (suc i) (x ∷ xs) h = omega (arith, running_before-suc i xs h)

  pub length-set : (i : ℕ) (xs : List (Poll T A)) (p : Poll T A) → length (set xs i p) ≡ length xs
  length-set zero [] p = refl
  length-set zero (x ∷ xs) p = refl
  length-set (suc i) [] p = refl
  length-set (suc i) (x ∷ xs) p = omega (arith, length-set i xs p)

  pub are_done_of_running :
      (n : ℕ) (xs : List (Poll T A)) → running_before n xs ≡ 0 → length xs ≤ n → are_done xs ≡ true
  are_done_of_running n [] e le = refl
  are_done_of_running zero (x ∷ xs) e le = absurd (omega arith)
  are_done_of_running (suc n) (pending t ∷ xs) e le = absurd (omega arith)
  are_done_of_running (suc n) (ready o ∷ xs) e le =
      are_done_of_running n xs (omega arith) (omega arith)
