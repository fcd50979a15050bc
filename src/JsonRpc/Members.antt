-- ===== src/JsonRpc/Members.antt =====
-- How the code that serde derives takes the members of an object: by their names, none twice.
use tower_lsp.Base.{
  String, String_eq, Bool, true, false, ◌&&◌, ◌||◌, List, [], ◌∷◌, Option, none, some, ◌==◌,
  if◌then◌else◌,
}

abbrev pub is_among : List String → String → Bool
is_among [] key = false
is_among (name ∷ names) key = key == name || is_among names key

module _ {V : Type 0} where
  -- A field that is there already is a `duplicate_field` error.
  unfoldable pub add_member : V → Option (Option V) → Option (Option V)
  add_member v (some none) = some (some v)
  add_member v _ = none

  -- The value of a name, if it is there, or the error of a name that is there twice.
  unfoldable pub member : String → List (String × V) → Option (Option V)
  unfolding add_member
  member name [] = some none
  member name ((key, v) ∷ members) =
      let rest = member name members in if key == name then add_member v rest else rest

  -- The members that no field of the struct around a flattened field takes.
  unfoldable pub unclaimed : List String → List (String × V) → List (String × V)
  unclaimed names [] = []
  unclaimed names ((key, v) ∷ members) =
      let rest = unclaimed names members in if is_among names key then rest else (key, v) ∷ rest

  -- `deny_unknown_fields`
  unfoldable pub are_known : List String → List (String × V) → Bool
  are_known names [] = true
  are_known names ((key, v) ∷ members) = is_among names key && are_known names members

  -- `skip_serializing_if = "Option::is_none"`
  unfoldable pub skip_none : String → Option V → List (String × V)
  skip_none name none = []
  skip_none name (some v) = (name, v) ∷ []
