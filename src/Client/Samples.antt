-- ===== src/Client/Samples.antt =====
-- Data of the tests: channels that are numbered.
use tower_lsp.Base.{
  ℕ, suc, ◌<◌, ◌≡◌, ◌≢◌, refl, ◌∙◌, String, Bool, true, false, Option, none, some, arith, nat_eq,
  nat_eq_iff, if◌then◌else◌, ok, ◌==◌, String_eq, [], ap, sym, inl, inr, Bool-cases,
}
use mathlib.Core.Option.{some-injective}
use tower_lsp.JsonRpc.Response.{Response}
use tower_lsp.Service.State.{initialized}
use tower_lsp.Client.Oneshot.{OneshotApi}
use tower_lsp.Client.Requests.{Client}
use tower_lsp.Client.Methods.{LspTypes}

-- Function update.
abbrev pub update : {A : Type 0} → ℕ → A → (ℕ → A) → ℕ → A
update h a f k = if nat_eq k h then a else f k

pub update_self : {A : Type 0} (h : ℕ) (a : A) (f : ℕ → A) → update h a f h ≡ a
update_self h a f = ground (arith, nat_eq_iff h h)

update_other : {A : Type 0} (h k : ℕ) (a : A) (f : ℕ → A) → k ≢ h → update h a f k ≡ f k
update_other h k a f other = ground (arith, nat_eq_iff k h)

pub record Channels (A : Type 0) : Type 0 where
  pub next : ℕ
  pub dropped : ℕ → Bool
  pub values : ℕ → Option (A)

abbrev pub open_channel : {A : Type 0} → Channels A → Channels A
open_channel ch = record {
  next = suc ch.next;
  dropped = update ch.next false ch.dropped;
  values = update ch.next none ch.values;
}

abbrev pub sent : {A : Type 0} → ℕ → A → Channels A → Channels A
sent s a ch = record ch { values = update s (some a) ch.values }

unfoldable pub send : {A : Type 0} → ℕ → A → Channels A → Option (Channels A)
send s a ch = if ch.dropped s then none else some (sent s a ch)

pub send_alive :
    {A : Type 0} (s : ℕ) (a : A) (ch : Channels A)
    → ch.dropped s ≡ false
    → (ch' : Channels A) × (send s a ch ≡ some ch') × (ch'.values s ≡ some a)
unfolding send
send_alive s a ch alive = (sent s a ch, rw (alive) refl, update_self s (some a) ch.values)

pub send_dropped :
    {A : Type 0} (s : ℕ) (a : A) (ch : Channels A) → ch.dropped s ≡ true → send s a ch ≡ none
unfolding send
send_dropped s a ch d = rw (d) refl

pub send_other :
    {A : Type 0} (s t : ℕ) (a : A) (ch ch' : Channels A)
    → send s a ch ≡ some ch'
    → s ≢ t
    → ch'.values t ≡ ch.values t
unfolding send
send_other {A} s t a ch ch' e other = elim (Bool-cases (ch.dropped s)) [
  | inl d ↦ let e' : ◌≡◌ {A = Option (Channels A)} none (some ch') = rw (d) at e in absurd (cc)
  | inr alive ↦
      let e' : some (sent s a ch) ≡ some ch' = rw (alive) at e in
      ap (λ c. c.values t) (sym (some-injective (sent s a ch) ch' e'))
      ∙ update_other s t (some a) ch.values (λ same. other (sym same))
]

abbrev pub numbered : (A : Type 0) → OneshotApi A
numbered A = record {
  Channels = Channels A;
  Sender = ℕ;
  channel = λ ch. (ch.next, open_channel ch);
  send = send;
  is_dropped = λ ch s. ch.dropped s;
  received = λ ch s. ch.values s;
  Issued = λ ch s. s < ch.next;
  issued_new = λ ch. omega arith;
  issued_kept = λ ch s i. omega arith;
  channel_fresh = λ ch s i e. omega arith;
  channel_alive = λ ch. update_self ch.next false ch.dropped;
  channel_empty = λ ch. update_self ch.next none ch.values;
  send_alive = send_alive;
  send_dropped = send_dropped;
  send_other = send_other;
}

abbrev pub channels_api : OneshotApi (Response String)
channels_api = numbered (Response String)

abbrev pub closed : {A : Type 0} → Channels A
closed = record { next = 0; dropped = λ s. false; values = λ s. none }

-- A client of a server that is initialized, without requests.
abbrev pub client : Client channels_api
client = record {
  request_id = 0;
  pending = record { waiters = []; channels = closed };
  state = initialized;
  closed = false;
}

-- The types of lsp_types as texts.
abbrev pub lsp_types : LspTypes String
lsp_types = record {
  Registration = String;
  Unregistration = String;
  MessageType = String;
  MessageActionItem = String;
  ShowDocumentParams = String;
  ShowDocumentResult = Bool;
  Url = String;
  Diagnostic = String;
  ConfigurationItem = String;
  WorkspaceEdit = String;
  registration_params = λ rs. "{}";
  unregistration_params = λ us. "{}";
  show_message_params = λ typ m. m;
  log_message_params = λ typ m. m;
  show_message_request_params = λ typ m actions. m;
  show_document_params = λ p. p;
  show_document_result = λ v. ok (v == "true");
  success = λ b. b;
  publish_diagnostics_params = λ uri diags v. uri;
  configuration_params = λ items. "[]";
  apply_edit_params = λ edit. edit;
  unit_params = "null";
}
