-- ===== src/JsonRpc/Deserialize/Valid.antt =====
-- Messages as the Rust types and serde allow them: src/jsonrpc.rs, src/jsonrpc/request.rs,
-- src/jsonrpc/response.rs and src/jsonrpc/error.rs.
use mathlib.Core.Option
use mathlib.Core.Option.{some-injective}
use tower_lsp.Base.{
  ◌≡◌, ◌≢◌, refl, true, Option, ◌∷◌, [], ltb, length, none, some, inl, inr, Bool-cases, List,
  String, String_eq,
}
use tower_lsp.Base.Ensures.{
  Ensures, Ensures-bind, Ensures-if, Ensures-map, Ensures-imp, Ensures_some,
}
use tower_lsp.JsonRpc.RequestId.{RequestId}
use tower_lsp.JsonRpc.Error.{ErrorCode, Error, code, from_i64}
use tower_lsp.JsonRpc.Error.Codes.{IsCanonical, from_i64-IsCanonical, code-from_i64}
use tower_lsp.JsonRpc.Request.{Request}
use tower_lsp.JsonRpc.Response.{Kind, ok_kind, err_kind, Response}
use tower_lsp.JsonRpc.Message.{Message, response, request}
use tower_lsp.JsonRpc.Document.{Shape, integer, text, object, boolean, float, array, SerdeJson}
use tower_lsp.JsonRpc.Deserialize.{
  is_i64, integer_of, id_of, present, error_of, request_of, response_of, deserialize_i64,
  deserialize_id, deserialize_code, deserialize_option, deserialize_some, error_of_fields,
  error_of_members, error_of_items, deserialize_error, request_of_fields, request_of_members,
  request_of_items, deserialize_request, deserialize_ok, deserialize_err, deserialize_kind,
  response_of_members, deserialize_response, deserialize_message, or_default, first_of,
  check_version, deserialize_string,
}
use tower_lsp.JsonRpc.Members.{member, are_known, unclaimed}

-- A numeric identifier is an i64.
abbrev pub IsValidId : RequestId → Type 0
IsValidId (RequestId.number n) = is_i64 n ≡ true
IsValidId _ = Unit

abbrev pub IsValidOption : Option RequestId → Type 0
IsValidOption none = Unit
IsValidOption (some id) = IsValidId id

Ensures-first_of :
    {A : Type 0} (P : A → Type 0) (first other : Option A)
    → Ensures P first
    → Ensures P other
    → Ensures P (first_of first other)
Ensures-first_of P (some a) other h k = h
Ensures-first_of P none other h k = k

module _ (serde : SerdeJson) where
  open serde use {Value, Float, make, shape, shape-make}

  -- The number of an error is an i64 and no other code's, and its data is no explicit null.
  pub record IsValidError (e : Error Value) : Type 0 where
    pub in_range : is_i64 (code e.code) ≡ true
    pub canonical : IsCanonical e.code
    pub filled : (v : Value) → e.payload ≡ some v → shape v ≢ Shape.null

  abbrev pub IsValidKind : Kind Value → Type 0
  IsValidKind (ok_kind result) = Unit
  IsValidKind (err_kind error) = IsValidError error

  abbrev pub IsValid : Message Value → Type 0
  IsValid (response r) = IsValidKind r.kind × IsValidId r.id
  IsValid (request r) = IsValidOption r.id

  id_of-IsValidId : (s : Shape Value Float) → Ensures IsValidId (id_of serde s)
  id_of-IsValidId (integer n) = elim (Bool-cases (is_i64 n)) [ inl e ↦ rw e e | inr e ↦ rw e tt ]
  id_of-IsValidId (text s) = tt
  id_of-IsValidId Shape.null = tt
  id_of-IsValidId _ = tt

  integer_of_range : (s : Shape Value Float) → Ensures (λ n. is_i64 n ≡ true) (integer_of serde s)
  integer_of_range (integer n) = elim (Bool-cases (is_i64 n)) [ inl e ↦ rw e e | inr e ↦ rw e tt ]
  integer_of_range _ = tt

  abbrev IsValidCode : ErrorCode → Type 0
  IsValidCode c = (is_i64 (code c) ≡ true) × IsCanonical c

  deserialize_code_valid : (v : Value) → Ensures IsValidCode (deserialize_code serde v)
  unfolding deserialize_code deserialize_i64
  deserialize_code_valid v = Ensures-map IsValidCode from_i64 _ (
      Ensures-imp {P = λ n. is_i64 n ≡ true} {Q = λ n. IsValidCode (from_i64 n)}
        (deserialize_i64 serde v) (λ n h. (rw (code-from_i64 n) h, from_i64-IsCanonical n))
        (integer_of_range (shape v)))

  present_filled :
      (s : Shape Value Float) (w : Value)
      → s ≡ shape w
      → (v : Value) → present serde s w ≡ some v
      → shape v ≢ Shape.null
  present_filled Shape.null w here v e = absurd (cc)
  present_filled (boolean b) w here v e = rw (← some-injective w v e) (λ n. cc)
  present_filled (integer n) w here v e = rw (← some-injective w v e) (λ n. cc)
  present_filled (float f) w here v e = rw (← some-injective w v e) (λ n. cc)
  present_filled (text s) w here v e = rw (← some-injective w v e) (λ n. cc)
  present_filled (array vs) w here v e = rw (← some-injective w v e) (λ n. cc)
  present_filled (object ms) w here v e = rw (← some-injective w v e) (λ n. cc)

  deserialize_option_filled :
      (o : Option Value) (v : Value) → deserialize_option serde o ≡ some v → shape v ≢ Shape.null
  unfolding deserialize_option
  deserialize_option_filled none v e = absurd (cc)
  deserialize_option_filled (some w) v e = present_filled (shape w) w refl v e

  error_of_fields-IsValidError :
      (c m p : Option Value) → Ensures IsValidError (error_of_fields serde c m p)
  unfolding error_of_fields
  error_of_fields-IsValidError c m p = Ensures-bind IsValidError c _ (λ c' _.
      Ensures-bind IsValidError m _ (λ m' _.
        Ensures-bind IsValidError (deserialize_code serde c') _ (λ k e.
          Ensures-bind IsValidError (deserialize_string serde m') _ (λ s _.
            let (r, q) =
              Ensures_some IsValidCode (deserialize_code serde c') (deserialize_code_valid c') e in
            record { in_range = r; canonical = q; filled = deserialize_option_filled p }))))

  error_of_items-IsValidError : (vs : List Value) → Ensures IsValidError (error_of_items serde vs)
  unfolding error_of_items
  error_of_items-IsValidError (c ∷ m ∷ d ∷ []) =
      error_of_fields-IsValidError (some c) (some m) (some d)
  error_of_items-IsValidError _ = tt

  error_of-IsValidError : (s : Shape Value Float) → Ensures IsValidError (error_of serde s)
  unfolding error_of_members error_of
  error_of-IsValidError (object ms) = Ensures-bind IsValidError (member "code" ms) _ (λ c _.
      Ensures-bind IsValidError (member "message" ms) _ (λ m _.
        Ensures-bind IsValidError (member "data" ms) _ (λ p _.
          Ensures-if IsValidError (are_known ("code" ∷ "message" ∷ "data" ∷ []) ms)
            (error_of_fields serde c m p) (error_of_fields-IsValidError c m p))))
  error_of-IsValidError (array vs) = error_of_items-IsValidError vs
  error_of-IsValidError _ = tt

  deserialize_error-IsValidError : (v : Value) → Ensures IsValidError (deserialize_error serde v)
  unfolding deserialize_error
  deserialize_error-IsValidError v = error_of-IsValidError (shape v)

  deserialize_kind-IsValidKind :
      (members : List (String × Value)) → Ensures IsValidKind (deserialize_kind serde members)
  unfolding deserialize_kind deserialize_ok deserialize_err
  deserialize_kind-IsValidKind members =
      Ensures-first_of IsValidKind (deserialize_ok serde members) (deserialize_err serde members)
        (Ensures-bind IsValidKind (member "result" members) _
          (λ f _. Ensures-bind IsValidKind f _ (λ r _. tt)))
        (Ensures-bind IsValidKind (member "error" members) _ (λ f _.
          Ensures-bind IsValidKind f _ (λ v _.
            Ensures-bind IsValidKind (deserialize_error serde v) _
              (λ e here. Ensures_some IsValidError _ (deserialize_error-IsValidError v) here))))

  abbrev IsValidResponse : Response Value → Type 0
  IsValidResponse r = IsValidKind r.kind × IsValidId r.id

  abbrev IsValidRequest : Request Value → Type 0
  IsValidRequest r = IsValidOption r.id

  response_of-IsValid : (s : Shape Value Float) → Ensures IsValidResponse (response_of serde s)
  unfolding response_of response_of_members deserialize_id
  response_of-IsValid (object ms) =
      let P = IsValidResponse in
      Ensures-bind P (member "jsonrpc" ms) _ (λ j _. Ensures-bind P (member "id" ms) _ (λ i _.
        Ensures-bind P j _ (λ v _. Ensures-bind P (check_version serde v) _ (λ u _.
          Ensures-bind P i _ (λ w _. Ensures-bind P (deserialize_id serde w) _ (λ id e.
            Ensures-bind P (deserialize_kind serde (unclaimed ("jsonrpc" ∷ "id" ∷ []) ms)) _
              (λ k here. (
                Ensures_some IsValidKind _
                    (deserialize_kind-IsValidKind (unclaimed ("jsonrpc" ∷ "id" ∷ []) ms)) here,
                Ensures_some IsValidId _ (id_of-IsValidId (shape w)) e,
              ))))))))
  response_of-IsValid _ = tt

  optional_id-IsValid :
      (o : Option Value)
      → Ensures IsValidOption (or_default none (deserialize_some (deserialize_id serde)) o)
  unfolding deserialize_some deserialize_id
  optional_id-IsValid none = tt
  optional_id-IsValid (some v) = Ensures-map IsValidOption some _ (id_of-IsValidId (shape v))

  request_of_fields-IsValid :
      (j m p i : Option Value) → Ensures IsValidRequest (request_of_fields serde j m p i)
  unfolding request_of_fields
  request_of_fields-IsValid j m p i =
      let P = IsValidRequest in
      Ensures-bind P j _ (λ v _. Ensures-bind P (check_version serde v) _ (λ u _.
        Ensures-bind P (or_default "" (deserialize_string serde) m) _ (λ method _.
          Ensures-bind P (or_default none (deserialize_some some) p) _ (λ params _.
            Ensures-bind P (or_default none (deserialize_some (deserialize_id serde)) i) _
              (λ id e. Ensures_some IsValidOption _ (optional_id-IsValid i) e)))))

  request_of-IsValid : (s : Shape Value Float) → Ensures IsValidRequest (request_of serde s)
  unfolding request_of request_of_members request_of_items
  request_of-IsValid (object ms) =
      let P = IsValidRequest in
      Ensures-bind P (member "jsonrpc" ms) _ (λ j _. Ensures-bind P (member "method" ms) _ (λ m _.
        Ensures-bind P (member "params" ms) _
          (λ p _. Ensures-bind P (member "id" ms) _ (λ i _. request_of_fields-IsValid j m p i))))
  request_of-IsValid (array vs) = elim (Bool-cases (ltb 4 (length vs))) [
    | inl long ↦ rw long tt
    | inr fits ↦ rw fits (request_of_fields-IsValid _ _ _ _)
  ]
  request_of-IsValid _ = tt

  -- Every message that is read has the properties that make it readable again.
  pub deserialize_message-IsValid : (v : Value) → Ensures IsValid (deserialize_message serde v)
  unfolding deserialize_message deserialize_response deserialize_request
  deserialize_message-IsValid v =
      Ensures-first_of IsValid (Option.map response (deserialize_response serde v))
        (Option.map request (deserialize_request serde v))
        (Ensures-map IsValid response (deserialize_response serde v)
          (response_of-IsValid (shape v)))
        (Ensures-map IsValid request (deserialize_request serde v) (request_of-IsValid (shape v)))
