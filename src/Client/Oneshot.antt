-- ===== src/Client/Oneshot.antt =====
-- What the program takes from `futures::channel::oneshot`: a sender and a receiver of one value.
use tower_lsp.Base.{◌≡◌, ◌≢◌, Bool, true, false, Option, none, some}

pub record OneshotApi (A : Type 0) : Type 1 where
  -- all the channels there are
  pub Channels : Type 0
  pub Sender : Type 0
  pub channel : Channels → Sender × Channels
  -- `none` is `Err`, where the receiver has been dropped
  pub send : Sender → A → Channels → Option Channels
  pub is_dropped : Channels → Sender → Bool
  pub received : Channels → Sender → Option A
  pub Issued : Channels → Sender → Type 0
  pub issued_new : (ch : Channels) → Issued (channel ch).1 (channel ch).0
  pub issued_kept : (ch : Channels) (s : Sender) → Issued ch s → Issued (channel ch).1 s
  pub channel_fresh : (ch : Channels) (s : Sender) → Issued ch s → (channel ch).0 ≢ s
  pub channel_alive : (ch : Channels) → is_dropped (channel ch).1 (channel ch).0 ≡ false
  pub channel_empty : (ch : Channels) → received (channel ch).1 (channel ch).0 ≡ none
  pub send_alive :
      (s : Sender) (a : A) (ch : Channels)
      → is_dropped ch s ≡ false
      → (ch' : Channels) × (send s a ch ≡ some ch') × (received ch' s ≡ some a)
  pub send_dropped :
      (s : Sender) (a : A) (ch : Channels) → is_dropped ch s ≡ true → send s a ch ≡ none
  pub send_other :
      (s t : Sender) (a : A) (ch ch' : Channels)
      → send s a ch ≡ some ch'
      → s ≢ t
      → received ch' t ≡ received ch t
