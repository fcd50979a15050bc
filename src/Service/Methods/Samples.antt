-- ===== src/Service/Methods/Samples.antt =====
-- Data of the tests: a backend, and a custom method.
use tower_lsp.Base.{ℕ, String, List, [], ◌∷◌, none, some, ok, String_eq}
use tower_lsp.JsonRpc.RequestId.{NumberOrString}
use tower_lsp.JsonRpc.Router.{result_response}
use tower_lsp.JsonRpc.Router.Calls.{result_response-IsAnswering}
use tower_lsp.Service.Samples.{json}
use tower_lsp.Service.Methods.{Server, TraitMethod, ignored}
use tower_lsp.Service.Methods.Builder.{CustomHandler}
use tower_lsp.Service.Methods.Serving.{AreAnswering}

abbrev pub server : Server json String String ℕ
server = record {
  from_value = λ type v. ok v;
  to_value = λ type a. ok a;
  cancel_params = λ v. ok (NumberOrString.string v);
  backend = λ name p. 7;
}

-- Tries to take the name of a method of the trait.
abbrev pub customs : List (String × CustomHandler json server)
customs =
    (
      "exit",
      record {
        params = record { from_params = λ p. ok p };
        response = result_response (λ a. ok a);
        f = λ p. 9;
      },
    )
    ∷ []

abbrev pub initialized_method : TraitMethod
initialized_method = record {
  rpc_name = "initialized";
  handler_name = "initialized";
  params = some "InitializedParams";
  result = none;
  body = ignored;
}

pub customs-AreAnswering : AreAnswering json server customs
customs-AreAnswering = (result_response-IsAnswering (λ a. ok a), tt)
