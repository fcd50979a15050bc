-- ===== src/Service/Abort.antt =====
-- What the program takes from `futures::future::{abortable, AbortHandle}`: a future and a handle
-- that share a flag. `abort` raises the flag, and a future whose flag is up ends as aborted at its
-- next poll, without running.
use tower_lsp.Base.{◌≡◌, ◌≢◌, Bool, true, false}

pub record AbortApi : Type 1 where
  -- all the flags there are
  pub Flags : Type 0
  pub Handle : Type 0
  pub abortable : Flags → Handle × Flags
  pub abort : Handle → Flags → Flags
  pub is_aborted : Flags → Handle → Bool
  -- the handles that `abortable` has made
  pub Issued : Flags → Handle → Type 0
  pub issued_new : (fl : Flags) → Issued (abortable fl).1 (abortable fl).0
  pub issued_kept : (fl : Flags) (h : Handle) → Issued fl h → Issued (abortable fl).1 h
  pub issued_abort : (fl : Flags) (h k : Handle) → Issued fl h → Issued (abort k fl) h
  -- a new flag is down, and is nobody else's
  pub abortable_down : (fl : Flags) → is_aborted (abortable fl).1 (abortable fl).0 ≡ false
  pub abortable_fresh : (fl : Flags) (h : Handle) → Issued fl h → (abortable fl).0 ≢ h
  pub abortable_other :
      (fl : Flags) (h : Handle) → Issued fl h → is_aborted (abortable fl).1 h ≡ is_aborted fl h
  -- `abort` raises its own flag only, for good
  pub abort_self : (fl : Flags) (h : Handle) → is_aborted (abort h fl) h ≡ true
  pub abort_kept :
      (fl : Flags) (h k : Handle) → is_aborted fl h ≡ true → is_aborted (abort k fl) h ≡ true
  pub abort_other :
      (fl : Flags) (h k : Handle) → k ≢ h → is_aborted (abort k fl) h ≡ is_aborted fl h
