-- ===== src/Base/Map.antt =====
-- Finite maps, for the hash maps of the program: association lists over a key with a test.
use mathlib.Core.Path.{◌≡◌, refl, subst}
use mathlib.Core.Logic.{inl, inr}
use mathlib.Core.Option.{Option, none, some, some-injective}
use mathlib.Core.List.{List, [], ◌∷◌}
use native.Mathlib.Omega.{arith}
use tower_lsp.Base.Tests.{if◌then◌else◌, Bool-cases}
use tower_lsp.Base.Lists.{All}
use tower_lsp.Base.Equality.{Eq, ◌==◌, eq_iff}

abbrev pub Map : Type 0 → Type 0 → Type 0
Map K V = List (K × V)

module _ {K V : Type 0} ⦃e : Eq K⦄ where
  unfoldable pub get : K → Map K V → Option V
  get k [] = none
  get k ((j, v) ∷ m) = if j == k then some v else get k m

  -- Replaces the value of a key that is there.
  unfoldable pub insert : K → V → Map K V → Map K V
  insert k v [] = (k, v) ∷ []
  insert k v ((j, w) ∷ m) = if j == k then (k, v) ∷ m else (j, w) ∷ insert k v m

  unfoldable pub remove : K → Map K V → Map K V
  remove k [] = []
  remove k ((j, v) ∷ m) = let rest = remove k m in if j == k then rest else (j, v) ∷ rest

  pub get-insert :
      (k j : K) (v : V) (m : Map K V) → get j (insert k v m) ≡ (if k == j then some v else get j m)
  unfolding get insert
  get-insert k j v [] = refl
  get-insert k j v ((i, w) ∷ m) =
      ground (arith, eq_iff k j, eq_iff i k, eq_iff i j, get-insert k j v m)

  pub get-remove : (k j : K) (m : Map K V) → get j (remove k m) ≡ (if k == j then none else get j m)
  unfolding get remove
  get-remove k j [] = ground arith
  get-remove k j ((i, w) ∷ m) = ground (arith, eq_iff k j, eq_iff i k, eq_iff i j, get-remove k j m)

  pub get-All :
      (P : V → Type 0) (name : K) (m : Map K V) (v : V)
      → All (λ e. P e.1) m
      → get name m ≡ some v
      → P v
  unfolding get
  get-All P name [] v h e = absurd (cc)
  get-All P name ((k, u) ∷ m) v (p, h) e = elim (Bool-cases (k == name)) [
    | inl here ↦ subst P (some-injective u v (rw (here, get) at e)) p
    | inr there ↦ get-All P name m v h (rw (there, get) at e)
  ]
