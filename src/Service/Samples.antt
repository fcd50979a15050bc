-- ===== src/Service/Samples.antt =====
-- Data of the tests: JSON values that are texts, abort flags that are Booleans, and a service with
-- three methods.
use tower_lsp.Base.{
  ℕ, suc, ◌<◌, ◌≡◌, ◌≢◌, refl, sym, String, Bool, true, false, [], ◌∷◌, none, some, arith,
  if◌then◌else◌, nat_eq, nat_eq_iff, Result, ok, String_eq,
}
use tower_lsp.JsonRpc.RequestId.{RequestId, NumberOrString, from_number_or_string}
use tower_lsp.JsonRpc.Json.{Json}
use tower_lsp.JsonRpc.Error.{Error}
use tower_lsp.JsonRpc.Request.{Request}
use tower_lsp.JsonRpc.Router.{
  Router, MethodHandler, no_params, required_params, unit_response, result_response,
}
use tower_lsp.Base.Int.{pos}
use tower_lsp.Service.State.{uninitialized, initialized}
use tower_lsp.Service.Abort.{AbortApi}
use tower_lsp.Service.World.{World}
use tower_lsp.Service.Task.{Task, running}
use tower_lsp.Service.Lsp.{BoxService, layered, plain, exit, initialize, normal, shutdown}
use tower_lsp.Base.Map.{get-All}
use tower_lsp.JsonRpc.Router.Calls.{
  IsAnswering, unit_response-IsAnswering, result_response-IsAnswering,
}
use tower_lsp.Service.Replies.Calls.{IsGood}
use tower_lsp.Service.Replies.Driven.{IsGoodRouter}

abbrev pub json : Json
json = record {
  Value = String;
  from_string = λ s. s;
  as_string = λ v. some v;
  display = λ v. v;
  as_string-from_string = λ s. refl;
}

-- The number of the next handle, and which handles are aborted.
pub record Flags : Type 0 where
  pub next : ℕ
  pub raised : ℕ → Bool

abbrev pub raise : ℕ → Bool → (ℕ → Bool) → ℕ → Bool
raise h b raised k = if nat_eq k h then b else raised k

pub raise_self : (h : ℕ) (b : Bool) (raised : ℕ → Bool) → raise h b raised h ≡ b
raise_self h b raised = ground (arith, nat_eq_iff h h)

pub raise_other : (h k : ℕ) (b : Bool) (raised : ℕ → Bool) → k ≢ h → raise h b raised k ≡ raised k
raise_other h k b raised other = ground (arith, nat_eq_iff k h)

pub raise_kept : (h k : ℕ) (raised : ℕ → Bool) → raised k ≡ true → raise h true raised k ≡ true
raise_kept h k raised up = ground (arith, nat_eq_iff k h)

abbrev pub api : AbortApi
api = record {
  Flags = Flags;
  Handle = ℕ;
  abortable =
      λ fl. (fl.next, record { next = suc fl.next; raised = raise fl.next false fl.raised });
  abort = λ h fl. record fl { raised = raise h true fl.raised };
  is_aborted = λ fl h. fl.raised h;
  Issued = λ fl h. h < fl.next;
  issued_new = λ fl. omega arith;
  issued_kept = λ fl h i. omega arith;
  issued_abort = λ fl h k i. i;
  abortable_down = λ fl. raise_self fl.next false fl.raised;
  abortable_fresh = λ fl h i e. omega arith;
  abortable_other = λ fl h i. raise_other fl.next h false fl.raised (λ e. omega arith);
  abort_self = λ fl h. raise_self h true fl.raised;
  abort_kept = λ fl h k up. raise_kept k h fl.raised up;
  abort_other = λ fl h k other. raise_other k h true fl.raised (λ e. other (sym e));
}

abbrev pub no_flags : Flags
no_flags = record { next = 0; raised = λ h. false }

-- What the futures of the backend end in.
abbrev pub Reply : Type 0
Reply = Result String (Error String)

abbrev pub handler : MethodHandler String (Unit {0}) ℕ Reply
handler = record { params = no_params json; response = result_response (λ v. ok v); f = λ _. 7 }

abbrev pub cancel_handler : MethodHandler String NumberOrString RequestId (Unit {0})
cancel_handler = record {
  params = required_params json (λ v. ok (NumberOrString.string v));
  response = unit_response;
  f = from_number_or_string;
}

abbrev pub Backend : Type 0
Backend = BoxService String (Unit {0}) ℕ Reply

abbrev pub router : Router (Unit {0}) Backend
router = record {
  server = tt;
  methods =
      ("initialize", layered initialize handler)
      ∷ ("hover", layered normal handler)
      ∷ ("shutdown", layered shutdown handler)
      ∷ ("$/cancelRequest", plain cancel_handler)
      ∷ ("exit", exit)
      ∷ [];
}

abbrev pub request : String → ℕ → Request String
request name n = record { method = name; params = none; id = some (RequestId.number (pos n)) }

abbrev pub notification : String → Request String
notification name = record { method = name; params = none; id = none }

abbrev pub fresh : World api
fresh = record { state = uninitialized; pending = []; flags = no_flags; closed = false }

abbrev pub idle : World api
idle = record fresh { state = initialized }

abbrev pub work : Task String ℕ ℕ Reply
work = running 7 (result_response (λ v. ok v)) (some (RequestId.number (pos 1)))

abbrev answering : IsAnswering handler.response
answering = result_response-IsAnswering (λ v. ok v)

pub router-IsGood : IsGoodRouter json api router
router-IsGood name s e =
    get-All IsGood name router.methods s
      (answering, (answering, (answering, (unit_response-IsAnswering, (tt, tt))))) e
