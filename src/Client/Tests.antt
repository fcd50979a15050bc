-- ===== src/Client/Tests.antt =====
-- The theorems of the client at concrete requests.
use tower_lsp.Base.{
  ◌≡◌, refl, ◌↔◌, ◌%◌, String, true, ◌==◌, String_eq, [], ◌∷◌, none, arith, ok, Result,
}
use tower_lsp.Base.Int.{pos}
use tower_lsp.Base.Map.{get}
use tower_lsp.JsonRpc.RequestId.{RequestId, number}
use tower_lsp.JsonRpc.Response.{Response, ok_kind}
use tower_lsp.Service.State.{uninitialized}
use tower_lsp.Client.Waiters.{Pending, new, wait, insert_response}
use tower_lsp.Client.Waiters.Order.{insert_response-dropped}
use tower_lsp.Client.Waiters.Filled.{HasNoEmpty, start, waited, Reachable-HasNoEmpty}
use tower_lsp.Client.Requests.{Client, u32_mod, can_send}
use tower_lsp.Client.Requests.Numbers.{nth_id, nth_id_iff}
use tower_lsp.Client.Samples.{channels_api, closed, client, lsp_types}
use tower_lsp.Client.Methods.{Kinds}
use tower_lsp.Client.Invocations.{invoke, of_show_message_request, of_show_document}
use tower_lsp.Client.Permissions.{IsRestrained, invoke-IsRestrained, invoke-IsSentAs, IsSentAs}

abbrev one : RequestId
one = number (pos 1)

abbrev answer : Response String
answer = record { kind = ok_kind "yes"; id = one }

abbrev empty_table : Pending channels_api
empty_table = record { waiters = []; channels = closed }

-- Two wait for the same identifier.
abbrev both : Pending channels_api
both = record { waiters = (one, 0 ∷ 1 ∷ []) ∷ []; channels = record closed { next = 2 } }

-- The same, where the first has given up.
abbrev given_up : Pending channels_api
given_up = record both { channels = record closed { next = 2; dropped = λ s. true } }

insert_response-dropped_example : insert_response answer given_up ≡ none
unfolding get
insert_response-dropped_example =
    insert_response-dropped answer 0 (1 ∷ []) given_up (λ e. cc) refl refl

Reachable-HasNoEmpty_example : HasNoEmpty (wait one (new channels_api closed)).1
Reachable-HasNoEmpty_example = Reachable-HasNoEmpty (waited one (start closed))

nth_id_iff_example :
    (nth_id 1 client ≡ nth_id 4294967297 client) ↔ (1 % u32_mod ≡ 4294967297 % u32_mod)
nth_id_iff_example = nth_id_iff 1 4294967297 client (omega arith)

-- Every value is read as the text that it is.
abbrev texts : String → Result String String
texts v = ok v

-- Later another one waits for the same identifier, and the table has another number of channels.
abbrev later : Pending channels_api
later = record {
  waiters = (number (pos 0), 0 ∷ 1 ∷ []) ∷ (one, 2 ∷ []) ∷ [];
  channels = record closed { next = 3 };
}

abbrev early : Client channels_api
early = record client { state = uninitialized }

-- Values that are texts, of which some stand for structures.
abbrev kinds : Kinds String
kinds = record {
  is_null = λ v. v == "null";
  is_array = λ v. v == "[]";
  is_object = λ v. v == "{}";
  array = λ vs. "[]";
  is_array-array = λ vs. refl;
}

abbrev early_client : Client channels_api
early_client = record client { state = uninitialized }

invoke-IsRestrained_example : IsRestrained early_client (
    invoke lsp_types kinds {E = String}
      (of_show_message_request "error" "no config" none)
      early_client)
unfolding can_send
invoke-IsRestrained_example =
    invoke-IsRestrained lsp_types kinds (of_show_message_request "error" "no config" none)
      early_client refl

invoke-IsSentAs_example :
    IsSentAs "window/showDocument" true client
      (invoke lsp_types kinds {E = String} (of_show_document "file:///a") client)
unfolding can_send
invoke-IsSentAs_example =
    invoke-IsSentAs lsp_types kinds (of_show_document "file:///a") client refl tt
