-- ===== src/Service/Replies/Filter.antt =====
-- Which answers a call keeps back: src/service.rs.
use text.Mathlib.Text.{starts_with}
use tower_lsp.Base.{
  String, ◌≡◌, refl, ◌≢◌, ◌↔◌, inl, inr, true, Option, none, some, arith, Option-cases, String_eq,
}
use tower_lsp.JsonRpc.Json.{Json}
use tower_lsp.JsonRpc.Error.{Error, method_not_found}
use tower_lsp.JsonRpc.Response.{Response, error}
use tower_lsp.Service.State.{State_eq}
use tower_lsp.Service.Polling.{filter_response, is_optional_error}

module _ (json : Json) where
  open json use {Value, as_string}

  -- The error of an unknown method whose name starts with "$/".
  pub record IsOptional (failed : Option (Error Value)) : Type 0 where
    pub problem : Error Value
    pub is_failed : failed ≡ some problem
    pub unknown : problem.code ≡ method_not_found
    pub value : Value
    pub carried : problem.payload ≡ some value
    pub name : String
    pub named : as_string value ≡ some name
    pub prefixed : starts_with name "$/" ≡ true

  is_optional_error_sound :
      (failed : Option (Error Value)) → is_optional_error json failed ≡ true → IsOptional failed
  unfolding is_optional_error
  is_optional_error_sound none h = cc
  is_optional_error_sound (some e) h = elim (Option-cases e.payload) [
    | inl bare ↦ absurd (ground arith)
    | inr (v, carried) ↦ elim (Option-cases (as_string v)) [
      | inl other ↦ absurd (ground arith)
      | inr (m, named) ↦ record {
        problem = e;
        is_failed = refl;
        unknown = ground arith;
        value = v;
        carried = carried;
        name = m;
        named = named;
        prefixed = ground arith;
      }
    ]
  ]

  is_optional_error_complete :
      (failed : Option (Error Value)) → IsOptional failed → is_optional_error json failed ≡ true
  unfolding is_optional_error
  is_optional_error_complete failed o =
      ground (arith, o.is_failed, o.unknown, o.carried, o.named, o.prefixed)

  -- `LspService::call` keeps an answer back exactly if it says that a "$/" method is unknown, and
  -- passes every other on as it is.
  pub filter_response_iff :
      (res : Response Value)
      → ((filter_response json (some res) ≡ none) ↔ IsOptional (error res))
        × ((filter_response json (some res) ≢ none) → filter_response json (some res) ≡ some res)
  unfolding filter_response
  filter_response_iff res = (
    (
      (λ e. is_optional_error_sound (error res) (ground arith)),
      (λ o. ground (arith, is_optional_error_complete (error res) o)),
    ),
    ground arith,
  )
