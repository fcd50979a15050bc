-- ===== src/Base/Ensures.antt =====
-- Postconditions of attempts, for chains of them.
use mathlib.Core.Path.{◌≡◌, refl, subst}
use mathlib.Core.Bool.{Bool, true, false}
use mathlib.Core.Option
use mathlib.Core.Option.{Option, none, some}
use tower_lsp.Base.Tests.{if◌then◌else◌}
use tower_lsp.Base.Options.{◌>>=◌}

-- What an attempt gives, if it succeeds, has the property.
abbrev pub Ensures : {A : Type 0} → (A → Type 0) → Option A → Type 0
Ensures P none = Unit
Ensures P (some a) = P a

module _ {B : Type 0} (P : B → Type 0) where
  pub Ensures-bind :
      {A : Type 0} (m : Option A) (f : A → Option B)
      → ((a : A) → m ≡ some a → Ensures P (f a))
      → Ensures P (m >>= f)
  Ensures-bind none f h = tt
  Ensures-bind (some a) f h = h a refl

  pub Ensures-if : (b : Bool) (o : Option B) → Ensures P o → Ensures P (if b then o else none)
  Ensures-if true o h = h
  Ensures-if false o h = tt

  pub Ensures-map :
      {A : Type 0} (f : A → B) (o : Option A)
      → Ensures (λ a. P (f a)) o
      → Ensures P (Option.map f o)
  Ensures-map f none h = tt
  Ensures-map f (some a) h = h

  pub Ensures_some : (o : Option B) {b : B} → Ensures P o → o ≡ some b → P b
  Ensures_some o h e = subst (Ensures P) e h

pub Ensures-imp :
    {A : Type 0} {P Q : A → Type 0} (o : Option A)
    → ((a : A) → P a → Q a)
    → Ensures P o
    → Ensures Q o
Ensures-imp none f h = tt
Ensures-imp (some a) f h = f a h

-- An attempt whose results are absurd fails.
pub none_of_Ensures : {A : Type 0} (o : Option A) → Ensures (λ _. ⊥) o → o ≡ none
none_of_Ensures none h = refl
none_of_Ensures (some a) h = absurd h
