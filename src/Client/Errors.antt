-- ===== src/Client/Errors.antt =====
-- What an API error keeps of the answer that it is made of.
use integration_nfeio.Base.{ℤ, atoi, some, arith, String, ◌≡◌, refl, inl, inr, eq_str, Bool-cases}
use integration_nfeio.Json.{Json, obj, field, end, num, Bytes}
use integration_nfeio.Json.Structs.{store-keeps, unmarshal_doc-keeps}
use integration_nfeio.Http.{Response, ApiError}
use integration_nfeio.Client.{api_error_fields, set_api_error, with_default_message, api_error_of}

abbrev HasBody : Bytes → ApiError → Type 0
HasBody b e = e.raw_body ≡ b

set_api_error-HasBody :
    (b : Bytes) (n : String) (v : Json) (e : ApiError)
    → HasBody b e
    → HasBody b (set_api_error n v e).value
set_api_error-HasBody b n v e h = elim (Bool-cases (eq_str n "status")) [
  | inl status ↦ rw status (store-keeps (HasBody b) _ _ e h (λ _. h))
  | inr other ↦ elim (Bool-cases (eq_str n "name")) [
    | inl name ↦ rw (other, name) (store-keeps (HasBody b) _ _ e h (λ _. h))
    | inr text ↦ rw (other, text) (store-keeps (HasBody b) _ _ e h (λ _. h))
  ]
]

with_default_message-HasBody :
    (b : Bytes) (text : String) (e : ApiError)
    → HasBody b e
    → HasBody b (with_default_message text e)
with_default_message-HasBody b text e h = elim (Bool-cases (eq_str e.message "")) [
  | inl empty ↦ rw empty h
  | inr full ↦ rw full h
]

-- The error keeps the answer's own body, whatever is decoded over it.
pub api_error_of-raw_body : (r : Response) → (api_error_of r).raw_body ≡ r.body
unfolding api_error_of
api_error_of-raw_body r = with_default_message-HasBody r.body _ _ (
    unmarshal_doc-keeps (HasBody r.body) api_error_fields set_api_error
      (set_api_error-HasBody r.body) r.body.doc _ refl)

with_default_message-status :
    (text : String) (e : ApiError) → (with_default_message text e).status ≡ e.status
with_default_message-status text e = ground arith

-- Where the body of the answer is an object whose one field is a numeric status, the error carries
-- that number, whatever status the answer itself has.
pub api_error_of_body_status :
    (r : Response) (literal : String) {n : ℤ}
    → r.body.doc ≡ some (obj (field "status" (num literal) end))
    → atoi literal ≡ some n
    → (api_error_of r).status ≡ n
unfolding api_error_of
api_error_of_body_status r literal {n} doc value =
    let read : ApiError = record {
      status = n;
      name = "";
      message = "";
      raw_body = record { text = r.body.text; doc = some (obj (field "status" (num literal) end)) };
    } in
    rw (doc, value) (with_default_message-status r.body.text read)
