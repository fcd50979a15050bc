-- ===== src/JsonRpc/Deserialize/Order.antt =====
-- The order of the members of an object, for the derived code that reads messages: src/jsonrpc.rs,
-- src/jsonrpc/request.rs, src/jsonrpc/response.rs and src/jsonrpc/error.rs.

use tower_lsp.Base.{
  ◌≡◌, refl, ◌∙◌, String, String_eq, List, [], ◌∷◌, Option, none, some, Bool-cases, inl, inr, arith,
}
use tower_lsp.JsonRpc.Document.{object, SerdeJson}
use tower_lsp.JsonRpc.Members.{add_member, member, is_among, unclaimed, are_known}
use tower_lsp.JsonRpc.Deserialize.{
  error_of_members, deserialize_error, request_of_members, deserialize_request, deserialize_ok,
  deserialize_err, deserialize_kind, response_of_members, deserialize_response, deserialize_message,
}

-- The same members in another order.
pub data Reordered {V : Type 0} : List (String × V) → List (String × V) → Type 0 where
  nothing : Reordered [] []
  keep :
      (m : String × V) {xs ys : List (String × V)} → Reordered xs ys → Reordered (m ∷ xs) (m ∷ ys)
  swapped : (m n : String × V) (xs : List (String × V)) → Reordered (m ∷ n ∷ xs) (n ∷ m ∷ xs)
  chained : {xs ys zs : List (String × V)} → Reordered xs ys → Reordered ys zs → Reordered xs zs

module _ {V : Type 0} where
  Reordered-refl : (xs : List (String × V)) → Reordered xs xs
  Reordered-refl [] = nothing
  Reordered-refl (m ∷ xs) = keep m (Reordered-refl xs)

  add_member_comm :
      (v w : V) (o : Option (Option V))
      → add_member v (add_member w o) ≡ add_member w (add_member v o)
  unfolding add_member
  add_member_comm v w none = refl
  add_member_comm v w (some none) = refl
  add_member_comm v w (some (some u)) = refl

  member-Reordered :
      (name : String) {xs ys : List (String × V)}
      → Reordered xs ys
      → member name xs ≡ member name ys
  unfolding member
  member-Reordered name nothing = refl
  member-Reordered name (keep (k, v) r) = rw (member-Reordered name r) refl
  member-Reordered name (swapped (k, v) (j, w) xs) =
      ground (arith, add_member_comm v w (member name xs))
  member-Reordered name (chained r s) = member-Reordered name r ∙ member-Reordered name s

  are_known-Reordered :
      (names : List String) {xs ys : List (String × V)}
      → Reordered xs ys
      → are_known names xs ≡ are_known names ys
  unfolding are_known
  are_known-Reordered names nothing = refl
  are_known-Reordered names (keep (k, v) r) = rw (are_known-Reordered names r) refl
  are_known-Reordered names (swapped (k, v) (j, w) xs) = ground arith
  are_known-Reordered names (chained r s) =
      are_known-Reordered names r ∙ are_known-Reordered names s

  unclaimed-Reordered :
      (names : List String) {xs ys : List (String × V)}
      → Reordered xs ys
      → Reordered (unclaimed names xs) (unclaimed names ys)
  unfolding unclaimed
  unclaimed-Reordered names nothing = nothing
  unclaimed-Reordered names (keep (k, v) r) = elim (Bool-cases (is_among names k)) [
    | inl e ↦ rw e (unclaimed-Reordered names r)
    | inr e ↦ rw e (keep (k, v) (unclaimed-Reordered names r))
  ]
  unclaimed-Reordered names (swapped (k, v) (j, w) xs) = elim (Bool-cases (is_among names k)) [
    | inl e ↦ rw e (Reordered-refl _)
    | inr e ↦ elim (Bool-cases (is_among names j)) [
      | inl f ↦ rw (e, f) (Reordered-refl _)
      | inr f ↦ rw (e, f) (swapped (k, v) (j, w) (unclaimed names xs))
    ]
  ]
  unclaimed-Reordered names (chained r s) =
      chained (unclaimed-Reordered names r) (unclaimed-Reordered names s)

module _ (serde : SerdeJson) {xs ys : List (String × serde.Value)} (r : Reordered xs ys) where
  open serde use {Value, make, shape, shape-make}

  request_of_members-Reordered : request_of_members serde xs ≡ request_of_members serde ys
  unfolding request_of_members
  request_of_members-Reordered =
      rw
        (
          member-Reordered "jsonrpc" r,
          member-Reordered "method" r,
          member-Reordered "params" r,
          member-Reordered "id" r,
        )
        refl

  error_of_members-Reordered : error_of_members serde xs ≡ error_of_members serde ys
  unfolding error_of_members
  error_of_members-Reordered =
      rw
        (
          member-Reordered "code" r,
          member-Reordered "message" r,
          member-Reordered "data" r,
          are_known-Reordered ("code" ∷ "message" ∷ "data" ∷ []) r,
        )
        refl

  deserialize_kind-Reordered : deserialize_kind serde xs ≡ deserialize_kind serde ys
  unfolding deserialize_kind deserialize_ok deserialize_err
  deserialize_kind-Reordered = rw (member-Reordered "result" r, member-Reordered "error" r) refl

module _ (serde : SerdeJson) where
  open serde use {Value, make, shape, shape-make}

  response_of_members-Reordered :
      {xs ys : List (String × Value)}
      → Reordered xs ys
      → response_of_members serde xs ≡ response_of_members serde ys
  unfolding response_of_members
  response_of_members-Reordered r =
      rw
        (
          member-Reordered "jsonrpc" r,
          member-Reordered "id" r,
          deserialize_kind-Reordered serde (unclaimed-Reordered ("jsonrpc" ∷ "id" ∷ []) r),
        )
        refl

  -- The order of the members of an object does not matter: two objects with the same members in
  -- different orders are read as the same message, or neither is read as one; and they are read
  -- as the same error, or neither is.
  pub deserialize_message-Reordered :
      {xs ys : List (String × Value)} (r : Reordered xs ys)
      → (deserialize_message serde (make (object xs))
          ≡ deserialize_message serde (make (object ys)))
        × (deserialize_error serde (make (object xs)) ≡ deserialize_error serde (make (object ys)))
  unfolding deserialize_message deserialize_response deserialize_request deserialize_error
  deserialize_message-Reordered {xs} {ys} r = (
    rw
        (
          shape-make (object xs),
          shape-make (object ys),
          response_of_members-Reordered r,
          request_of_members-Reordered serde r,
        )
        refl,
    rw (shape-make (object xs), shape-make (object ys), error_of_members-Reordered serde r) refl,
  )
