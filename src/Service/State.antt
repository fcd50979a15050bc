-- ===== src/Service/State.antt =====
-- The state of the server and its atomic cell: src/service/state.rs.
use tower_lsp.Base.{
  ℕ, ◌≡◌, refl, Bool, true, false, Option, none, some, arith, ◌==◌, ℕ_eq, if◌then◌else◌, Eq, ◌↔◌,
}

pub data State : Type 0 where
  uninitialized initializing initialized shut_down exited : State

-- `state as u8`
unfoldable pub to_u8 : State → ℕ
to_u8 uninitialized = 0
to_u8 initializing = 1
to_u8 initialized = 2
to_u8 shut_down = 3
to_u8 exited = 4

-- The `AtomicU8` that the layers share.
pub record ServerState : Type 0 where
  pub cell : ℕ

unfoldable pub new : ServerState
unfolding to_u8
new = record { cell = to_u8 uninitialized }

unfoldable pub set : State → ServerState → ServerState
unfolding to_u8
set state s = record { cell = to_u8 state }

-- `none` stands for `unreachable!()`.
unfoldable pub get : ServerState → Option State
get s =
    if s.cell == 0
    then some uninitialized
    else if s.cell == 1
    then some initializing
    else if s.cell == 2
    then some initialized
    else if s.cell == 3
    then some shut_down
    else if s.cell == 4
    then some exited
    else none

-- The cells that the program can make.
pub data Reachable : ServerState → Type 0 where
  start : Reachable new
  store : {s : ServerState} (state : State) → Reachable s → Reachable (set state s)

-- A state that was stored is read back, so the cell holds the abstract state.
pub get-set : (state : State) (s : ServerState) → get (set state s) ≡ some state
unfolding get set
get-set uninitialized s = refl
get-set initializing s = refl
get-set initialized s = refl
get-set shut_down s = refl
get-set exited s = refl

-- The panic in `ServerState::get` cannot be met: every cell that the program makes reads as a
-- state.
pub get-Reachable : {s : ServerState} → Reachable s → (state : State) × (get s ≡ some state)
unfolding get new
get-Reachable start = (uninitialized, refl)
get-Reachable (store {s} state r) = (state, get-set state s)

abbrev pub state_eq : State → State → Bool
state_eq uninitialized uninitialized = true
state_eq initializing initializing = true
state_eq initialized initialized = true
state_eq shut_down shut_down = true
state_eq exited exited = true
state_eq _ _ = false

pub state_eq_iff : (a b : State) → (state_eq a b ≡ true) ↔ (a ≡ b)
state_eq_iff a b = ground arith

instance abbrev pub State_eq : Eq State
State_eq = record { test = state_eq; decides = state_eq_iff }
