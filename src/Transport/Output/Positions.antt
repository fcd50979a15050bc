-- ===== src/Transport/Output/Positions.antt =====
-- Positions in a list, by which `print_output` takes what was sent: src/transport.rs.
use mathlib.Core.Option.{some-injective}
use tower_lsp.Base.{
  ℕ, zero, suc, ◌≤◌, ◌<◌, ◌≡◌, refl, ap, List, [], ◌∷◌, ◌++◌, none, some, length, take, get_elem?,
  arith,
}

pub take_next :
    {A : Type 0} (xs : List A) (n : ℕ) {x : A}
    → get_elem? xs n ≡ some x
    → (take (suc n) xs ≡ take n xs ++ x ∷ []) × (suc n ≤ length xs)
take_next [] n e = absurd (cc)
take_next (y ∷ xs) zero e = (ap (λ z. z ∷ []) (some-injective y _ e), omega arith)
take_next (y ∷ xs) (suc n) e =
    let (same, bound) = take_next xs n e in (ap (◌∷◌ y) same, omega (arith, bound))

pub none_left : {A : Type 0} (xs : List A) (n : ℕ) → get_elem? xs n ≡ none → length xs ≤ n
none_left [] n e = omega arith
none_left (y ∷ xs) zero e = absurd (cc)
none_left (y ∷ xs) (suc n) e = omega (arith, none_left xs n e)

pub past_end : {A : Type 0} (xs : List A) (n : ℕ) → length xs ≤ n → get_elem? xs n ≡ none
past_end [] n h = refl
past_end (x ∷ xs) zero h = absurd (omega arith)
past_end (x ∷ xs) (suc n) h = past_end xs n (omega arith)

pub get_some :
    {A : Type 0} (xs : List A) (n : ℕ) → n < length xs → (x : A) × (get_elem? xs n ≡ some x)
get_some [] n h = absurd (omega arith)
get_some (x ∷ xs) zero h = (x, refl)
get_some (x ∷ xs) (suc n) h = get_some xs n (omega arith)
