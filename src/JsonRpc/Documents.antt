-- ===== src/JsonRpc/Documents.antt =====
-- Data of the tests: JSON documents as trees.
use tower_lsp.Base.{
  ℕ, String, ◌≡◌, refl, ap, Bool, List, [], ◌∷◌, none, some, List_eq, ℕ_eq, ◌==◌, if◌then◌else◌,
}
use tower_lsp.Base.Int.{ℤ}
use tower_lsp.Base.Text.{codes}
use tower_lsp.JsonRpc.Document.{Shape, boolean, integer, float, text, array, object, SerdeJson}

mutual
  pub data Tree : Type 0 where
    nothing : Tree
    flag : Bool → Tree
    whole : ℤ → Tree
    real : ℕ → Tree
    word : String → Tree
    row : Trees → Tree
    members : Fields → Tree

  pub data Trees : Type 0 where
    nil : Trees
    cons : Tree → Trees → Trees

  pub data Fields : Type 0 where
    end : Fields
    field : String → Tree → Fields → Fields

abbrev trees : List Tree → Trees
trees [] = nil
trees (t ∷ ts) = cons t (trees ts)

abbrev fields : List (String × Tree) → Fields
fields [] = end
fields ((k, t) ∷ ms) = field k t (fields ms)

abbrev list_of : Trees → List Tree
list_of nil = []
list_of (cons t ts) = t ∷ list_of ts

abbrev members_of : Fields → List (String × Tree)
members_of end = []
members_of (field k t ms) = (k, t) ∷ members_of ms

list_of-trees : (ts : List Tree) → list_of (trees ts) ≡ ts
list_of-trees [] = refl
list_of-trees (t ∷ ts) = ap (◌∷◌ t) (list_of-trees ts)

members_of-fields : (ms : List (String × Tree)) → members_of (fields ms) ≡ ms
members_of-fields [] = refl
members_of-fields ((k, t) ∷ ms) = ap (◌∷◌ (k, t)) (members_of-fields ms)

abbrev pub make : Shape Tree ℕ → Tree
make Shape.null = nothing
make (boolean b) = flag b
make (integer n) = whole n
make (float x) = real x
make (text s) = word s
make (array ts) = row (trees ts)
make (object ms) = members (fields ms)

abbrev pub shape : Tree → Shape Tree ℕ
shape nothing = Shape.null
shape (flag b) = boolean b
shape (whole n) = integer n
shape (real x) = float x
shape (word s) = text s
shape (row ts) = array (list_of ts)
shape (members ms) = object (members_of ms)

pub shape-make : (s : Shape Tree ℕ) → shape (make s) ≡ s
shape-make Shape.null = refl
shape-make (boolean b) = refl
shape-make (integer n) = refl
shape-make (float x) = refl
shape-make (text s) = refl
shape-make (array ts) = ap array (list_of-trees ts)
shape-make (object ms) = ap object (members_of-fields ms)

-- Documents whose texts are given for one document.
abbrev pub documents : Tree → SerdeJson
documents known = record {
  Value = Tree;
  Float = ℕ;
  make = make;
  shape = shape;
  shape-make = shape-make;
  parse = λ s. if s == codes "{}" then some known else none;
  print = λ v. codes "{}";
}
