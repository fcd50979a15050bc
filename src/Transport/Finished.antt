-- ===== src/Transport/Finished.antt =====
-- The end of the server: src/transport.rs.
use tower_lsp.Base.{
  ℕ, zero, suc, ◌+◌, ◌≤◌, ◌≡◌, refl, sym, ◌∙◌, subst, true, false, List, [], ◌∷◌, Option, none,
  some, get_elem?, length, arith, lt→ltb,
}
use tower_lsp.JsonRpc.Json.{Json}
use tower_lsp.JsonRpc.Response.{Response}
use tower_lsp.JsonRpc.Router.{Router}
use tower_lsp.Service.Abort.{AbortApi}
use tower_lsp.Service.Task.{pending, ready, Polled}
use tower_lsp.Service.Lsp.{BoxService}
use tower_lsp.Service.Polling.{poll}
use tower_lsp.Service.System.{Slot, set_slot}
use tower_lsp.Service.System.Progress.{HasEnded, poll-HasEnded}
use tower_lsp.Client.Oneshot.{OneshotApi}
use tower_lsp.Transport.Completion.{is_served, is_output_printed, are_tasks_processed}
use tower_lsp.Transport.Running.{
  IsEnded, running_before-set, running_before-suc, length-set, are_done_of_running,
}
use tower_lsp.Transport.Connection.{
  Reader, Reading, reading, ended, Connection, Step, end_of_input, polled, disconnect, finish_poll,
  poll_task, serve_step, serve, when_reading, is_in_progress, running_before,
}

-- A poll of each of `n` tasks from the `i`-th on, at which the backend's future in it ends.
abbrev pub polls : {Value J R : Type 0} → (ℕ → R) → ℕ → ℕ → List (Step Value J R)
polls answers i zero = []
polls answers i (suc n) = polled i (some (answers i)) ∷ polls answers (suc i) n

module _ {Value : Type 0} {api : AbortApi} {channels : OneshotApi (Response Value)}
    {B R : Type 0} where
  -- After the end of the input, with the first tasks of a number of tasks done.
  record IsEnding (i n : ℕ) (k : Connection api channels B R) : Type 0 where
    none_running : running_before i k.system.slots ≡ 0
    total : length k.system.slots ≡ n
    input_ended : k.read_input ≡ ended
    tasks_closed : k.tasks_open ≡ false
    responses_closed : k.responses_open ≡ false
    aborted : k.requests_aborted ≡ true

  IsEnding-is_served :
      (i n : ℕ) (k : Connection api channels B R) → n ≤ i → IsEnding i n k → is_served k ≡ true
  unfolding is_served is_output_printed are_tasks_processed
  IsEnding-is_served i n k le h =
      let done = are_done_of_running i k.system.slots h.none_running (omega (arith, h.total, le)) in
      rw (h.tasks_closed, h.responses_closed, h.aborted, h.input_ended, done) refl

module _ (json : Json) {api : AbortApi} {channels : OneshotApi (Response json.Value)}
    {S P B R J : Type 0} (router : Router S (BoxService json.Value P B R)) (reader : Reader J)
    (max : ℕ) (positive : 1 ≤ max) where
  open json use {Value}

  finish_poll-IsEnding :
      (i n : ℕ) (k : Connection api channels B R) (p : Polled api Value B R)
      → IsEnding i n k
      → HasEnded p.1
      → IsEnding (suc i) n (finish_poll json router reader max i p k)
  unfolding finish_poll set_slot
  finish_poll-IsEnding i n k (w, pending t) h e = absurd e
  finish_poll-IsEnding i n k (w, ready o) h e = record {
    none_running = running_before-set i k.system.slots o ∙ h.none_running;
    total = length-set i k.system.slots (ready o) ∙ h.total;
    input_ended = h.input_ended;
    tasks_closed = h.tasks_closed;
    responses_closed = h.responses_closed;
    aborted = h.aborted;
  }

  skip-IsEnding :
      (i n : ℕ) (k : Connection api channels B R)
      → IsEnding i n k
      → IsEnded (get_elem? k.system.slots i)
      → IsEnding (suc i) n k
  skip-IsEnding i n k h e = record {
    none_running = running_before-suc i k.system.slots e ∙ h.none_running;
    total = h.total;
    input_ended = h.input_ended;
    tasks_closed = h.tasks_closed;
    responses_closed = h.responses_closed;
    aborted = h.aborted;
  }

  poll_task-IsEnding :
      (s : Option (Slot api Value B R)) (i n : ℕ) (r : R) (k : Connection api channels B R)
      → get_elem? k.system.slots i ≡ s
      → IsEnding i n k
      → IsEnding (suc i) n (poll_task json router reader max s i (some r) k)
  unfolding poll_task is_in_progress
  poll_task-IsEnding (some (pending t)) i n r k e h =
      let free : is_in_progress max i k.system.slots ≡ true =
        lt→ltb (running_before i k.system.slots) max (omega (arith, h.none_running, positive)) in
      rw (free) (
        finish_poll-IsEnding i n k (poll json api (some r) k.system.world t) h
          (poll-HasEnded json api r k.system.world t))
  poll_task-IsEnding (some (ready o)) i n r k e h = skip-IsEnding i n k h (subst IsEnded (sym e) tt)
  poll_task-IsEnding none i n r k e h = skip-IsEnding i n k h (subst IsEnded (sym e) tt)

  polls-IsEnding :
      (answers : ℕ → R) (m i n : ℕ) (k : Connection api channels B R)
      → IsEnding i n k
      → IsEnding (i + m) n (serve json router reader max (polls answers i m) k)
  unfolding serve serve_step
  polls-IsEnding answers zero i n k h = subst (λ j. IsEnding j n k) (omega arith) h
  polls-IsEnding answers (suc m) i n k h =
      subst (λ j. IsEnding j n (serve json router reader max (polls answers i (suc m)) k))
        (omega arith)
        (polls-IsEnding answers m (suc i) n _
          (poll_task-IsEnding (get_elem? k.system.slots i) i n (answers i) k refl h))

  disconnect-IsEnding :
      (k : Connection api channels B R)
      → IsEnding 0 (length k.system.slots) (disconnect json router reader max k)
  unfolding disconnect
  disconnect-IsEnding k = record {
    none_running = refl;
    total = refl;
    input_ended = refl;
    tasks_closed = refl;
    responses_closed = refl;
    aborted = refl;
  }

  when_reading-IsEnding :
      (r : Reading Value) (k : Connection api channels B R)
      → r ≡ reading
      → IsEnding 0
          (length k.system.slots)
          (when_reading json router reader max r (disconnect json router reader max k) k)
  when_reading-IsEnding reading k e = disconnect-IsEnding k
  when_reading-IsEnding _ k e = absurd (cc)

  -- If the concurrency level is at least 1 and the server still reads, then it finishes: after
  -- the end of the input and one poll of each task in turn, at which the future of the backend in
  -- it ends, all three joined futures have ended.
  pub serve-end_of_input :
      (answers : ℕ → R) (k : Connection api channels B R)
      → k.read_input ≡ reading
      → is_served
          (serve json router reader max (end_of_input ∷ polls answers 0 (length k.system.slots)) k)
        ≡ true
  unfolding serve serve_step
  serve-end_of_input answers k r =
      let n = length k.system.slots in
      let started : IsEnding 0 n (serve_step json router reader max end_of_input k) =
        when_reading-IsEnding k.read_input k r in
      IsEnding-is_served (0 + n) n _ (omega arith) (polls-IsEnding answers n 0 n _ started)
