-- ===== src/Client/Progress/Built.antt =====
-- The builder of a `$/progress` stream: src/service/client/progress.rs.
use tower_lsp.Base.{ℕ, String, Bool, true, false, ◌≡◌, refl, some, is_some}
use tower_lsp.Client.Progress.{
  Bound, bounded, unbounded, Cancel, cancellable, not_cancellable, WorkDoneProgressBegin, Progress,
  new, with_percentage, with_cancel_button, with_message,
}

abbrev pub is_bounded : Bound → Bool
is_bounded bounded = true
is_bounded unbounded = false

abbrev pub is_cancellable : Cancel → Bool
is_cancellable cancellable = true
is_cancellable not_cancellable = false

-- The first notification has a percentage just in case the stream is bounded, and says whether it
-- may be cancelled.
abbrev pub Announces : Bound → Cancel → WorkDoneProgressBegin → Type 0
Announces b c m = (is_some m.percentage ≡ is_bounded b) × (m.cancellable ≡ some (is_cancellable c))

module _ {Token : Type 0} where
  -- What the methods of the builder make.
  pub data IsBuilt : (b : Bound) (c : Cancel) → Progress Token b c → Type 0 where
    new_IsBuilt :
        (token : Token) (title : String) → IsBuilt unbounded not_cancellable (new token title)
    percentage_IsBuilt :
        (c : Cancel) (p : Progress Token unbounded c) (n : ℕ)
        → IsBuilt unbounded c p
        → IsBuilt bounded c (with_percentage n p)
    cancel_IsBuilt :
        (b : Bound) (p : Progress Token b not_cancellable)
        → IsBuilt b not_cancellable p
        → IsBuilt b cancellable (with_cancel_button p)
    message_IsBuilt :
        (b : Bound) (c : Cancel) (p : Progress Token b c) (message : String)
        → IsBuilt b c p
        → IsBuilt b c (with_message message p)

  pub built-Announces :
      (b : Bound) (c : Cancel) (p : Progress Token b c) → IsBuilt b c p → Announces b c p.begin_msg
  unfolding new with_percentage with_cancel_button with_message
  built-Announces _ _ _ (new_IsBuilt token title) = (refl, refl)
  built-Announces _ _ _ (percentage_IsBuilt c p n h) = (refl, (built-Announces unbounded c p h).1)
  built-Announces _ _ _ (cancel_IsBuilt b p h) = ((built-Announces b not_cancellable p h).0, refl)
  built-Announces _ _ _ (message_IsBuilt b c p message h) = built-Announces b c p h
