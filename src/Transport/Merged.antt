-- ===== src/Transport/Merged.antt =====
-- Two sequences of responses in one channel: src/transport.rs.
use mathlib.Core.List.{List, [], ◌∷◌, ◌++◌}

-- The third list has the elements of the other two, each in their order.
pub data Merged {A : Type 0} : List A → List A → List A → Type 0 where
  nothing : Merged [] [] []
  left : {x : A} {xs ys zs : List A} → Merged xs ys zs → Merged (x ∷ xs) ys (x ∷ zs)
  right : {y : A} {xs ys zs : List A} → Merged xs ys zs → Merged xs (y ∷ ys) (y ∷ zs)

module _ {A : Type 0} where
  all_right : (ys : List A) → Merged [] ys ys
  all_right [] = nothing
  all_right (y ∷ ys) = right (all_right ys)

  pub Merged-append_right :
      {xs ys zs : List A} (ws : List A) → Merged xs ys zs → Merged xs (ys ++ ws) (zs ++ ws)
  Merged-append_right ws nothing = all_right ws
  Merged-append_right ws (left m) = left (Merged-append_right ws m)
  Merged-append_right ws (right m) = right (Merged-append_right ws m)

  pub Merged-append_left :
      {xs ys zs : List A} (x : A) → Merged xs ys zs → Merged (xs ++ x ∷ []) ys (zs ++ x ∷ [])
  Merged-append_left x nothing = left nothing
  Merged-append_left x (left m) = left (Merged-append_left x m)
  Merged-append_left x (right m) = right (Merged-append_left x m)
